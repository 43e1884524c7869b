-- ===== src/Spectest/Keys.antt =====
-- internal/spectest/firewall.go: the check by hand of the keys of a firewall form.
pub mod Matches
pub mod Accepts
use hrobot_go.Base.{
  ℕ, Bool, true, false, not, ◌&&◌, ◌||◌, List, [], ◌∷◌, ◌++◌, Bytes, codes, bytes_eq, leb, ◌==◌,
  if◌then◌else◌, Option, none, some, span, strip, behind_last, or_else, contains_byte, keys, split,
  trim_byte,
}
use hrobot_go.Url.Query.{Query, parse_query}
use hrobot_go.Spectest.{Report, not_a_form, report_keys, values_of, segments_of}

abbrev pub is_digit : ℕ → Bool
is_digit c = leb b'0' c && leb c b'9'

-- `[a-z_]`.
abbrev pub is_field_byte : ℕ → Bool
is_field_byte c = (leb b'a' c && leb c b'z') || c == b'_'

-- `firewallRuleKey.MatchString`, from left to right: `\[\d+\]\[[a-z_]+\]$` behind the direction.
-- One part after another is as long as it can be, and no shorter one would let the rest match.
field_matches : Bytes × Bytes → Bool
field_matches ([], rest) = false
field_matches (c ∷ field, rest) = bytes_eq rest (codes "]")

behind_index : Option Bytes → Bool
behind_index none = false
behind_index (some s) = field_matches (span is_field_byte s)

index_matches : Bytes × Bytes → Bool
index_matches ([], rest) = false
index_matches (d ∷ digits, rest) = behind_index (strip (codes "][") rest)

behind_direction : Option Bytes → Bool
behind_direction none = false
behind_direction (some s) = index_matches (span is_digit s)

-- `(input|output)\]\[`.
behind_rules : Option Bytes → Bool
behind_rules none = false
behind_rules (some s) =
    behind_direction (or_else (strip (codes "input][") s) (strip (codes "output][") s))

unfoldable pub firewall_rule_key : Bytes → Bool
unfolding behind_rules behind_direction index_matches behind_index field_matches strip span bytes_eq
firewall_rule_key key = behind_rules (strip (codes "rules[") key)

unfoldable pub firewall_allowed_fields : Bytes → Bool
unfolding bytes_eq
firewall_allowed_fields field =
    bytes_eq field (codes "name")
    || bytes_eq field (codes "ip_version")
    || bytes_eq field (codes "dst_ip")
    || bytes_eq field (codes "src_ip")
    || bytes_eq field (codes "dst_port")
    || bytes_eq field (codes "src_port")
    || bytes_eq field (codes "protocol")
    || bytes_eq field (codes "tcp_flags")
    || bytes_eq field (codes "action")

-- `s[:len(s)-1]`.
but_last : Bytes → Bytes
but_last [] = []
but_last (c ∷ []) = []
but_last (c ∷ d ∷ s) = c ∷ but_last (d ∷ s)

-- `key[strings.LastIndexByte(key, '[')+1 : len(key)-1]`: where there is no such byte the whole key.
field_of : Bytes → Option Bytes → Bytes
field_of key none = but_last key
field_of key (some s) = but_last s

unfoldable pub firewall_rule_key_or_scalar : Bytes → Bool
unfolding firewall_rule_key firewall_allowed_fields field_of but_last behind_last contains_byte
firewall_rule_key_or_scalar key =
    if not (contains_byte b'[' key)
    then true
    else if not (firewall_rule_key key)
    then false
    else firewall_allowed_fields (field_of key (behind_last b'[' key))

firewall_reports : Query → List Report
firewall_reports q =
    if q.failed
    then not_a_form ∷ []
    else report_keys firewall_rule_key_or_scalar (keys (values_of q.pairs))

unfoldable pub validate_firewall_form : Bytes → List Report
unfolding firewall_reports report_keys firewall_rule_key_or_scalar values_of parse_query
validate_firewall_form body = firewall_reports (parse_query body)

third_is_free : List Bytes → Bool
third_is_free (second ∷ []) = true
third_is_free (second ∷ third ∷ []) = bytes_eq second (codes "template")
third_is_free segments = false

unfoldable pub is_firewall_segments : List Bytes → Bool
unfolding third_is_free bytes_eq
is_firewall_segments [] = false
is_firewall_segments (first ∷ rest) = bytes_eq first (codes "firewall") && third_is_free rest

unfoldable pub is_firewall_rules_path : Bytes → Bool
unfolding is_firewall_segments segments_of
is_firewall_rules_path path = is_firewall_segments (segments_of path)
