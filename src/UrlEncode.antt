-- ===== src/UrlEncode.antt =====
-- internal/urlencode/firewall.go: the form encoder with literal brackets in its keys, and the
-- builder for single rules.
pub mod Parse
pub mod Same
use hrobot_go.Base.{
  ℕ, suc, ◌+◌, ◌≡◌, refl, Bool, true, false, List, [], ◌∷◌, ◌++◌, Option, none, some, Bytes, codes,
  ℤ, itoa, itoa_int, join, Map, keys, lookup, insert, get_or, sort_strings, text_leb,
}
use hrobot_go.Url.Escape.{query_escape}

-- One rule: its fields by name.
abbrev pub Rule : Type 0
Rule = Map Bytes

-- The rules of each direction.
abbrev pub Directions : Type 0
Directions = Map (List Rule)

-- `sortedKeys`.
unfoldable pub sorted_keys {ℓ} : {V : Type ℓ} → Map V → List Bytes
unfolding sort_strings text_leb
sorted_keys m = sort_strings (keys m)

-- `fmt.Sprintf("rules[%s][%d][%s]", direction, i, key)`.
unfoldable pub hier_key : Bytes → ℕ → Bytes → Bytes
unfolding itoa
hier_key direction i key =
    codes "rules[" ++ (direction ++ (codes "][" ++ (itoa i ++ (codes "][" ++ (key ++ codes "]")))))

-- The three nested loops of `EncodeFirewallRules`, from the inside.
pub field_parts : Bytes → ℕ → Rule → List Bytes → List Bytes
field_parts direction i rule [] = []
field_parts direction i rule (key ∷ ks) =
    (hier_key direction i key ++ (codes "=" ++ query_escape (get_or key [] rule)))
    ∷ field_parts direction i rule ks

pub rule_parts : Bytes → ℕ → List Rule → List Bytes
rule_parts direction i [] = []
rule_parts direction i (rule ∷ rules) =
    field_parts direction i rule (sorted_keys rule) ++ rule_parts direction (i + 1) rules

pub direction_parts : Directions → List Bytes → List Bytes
direction_parts rules [] = []
direction_parts rules (direction ∷ ds) =
    rule_parts direction 0 (get_or direction [] rules) ++ direction_parts rules ds

unfoldable pub encode_firewall_rules : Directions → Bytes
unfolding field_parts rule_parts direction_parts hier_key query_escape sorted_keys join lookup
encode_firewall_rules rules = join (codes "&") (direction_parts rules (sorted_keys rules))

-- `FirewallRuleEncoder`.
pub record FirewallRuleEncoder : Type 0 where
  pub rules : Directions

abbrev pub new_firewall_rule_encoder : FirewallRuleEncoder
new_firewall_rule_encoder = record { rules = [] }

-- A nil slice is made an empty one, and the rule is appended.
abbrev present : Bytes → Option (List Rule) → Directions → Directions
present direction none rules = insert direction [] rules
present direction (some _) rules = rules

unfoldable pub add_rule : Bytes → Rule → FirewallRuleEncoder → FirewallRuleEncoder
add_rule direction rule e =
    let start = present direction (lookup direction e.rules) e.rules in
    record { rules = insert direction (get_or direction [] start ++ (rule ∷ [])) start }

unfoldable pub add_input_rule : Rule → FirewallRuleEncoder → FirewallRuleEncoder
unfolding add_rule insert lookup
add_input_rule rule e = add_rule (codes "input") rule e

unfoldable pub add_output_rule : Rule → FirewallRuleEncoder → FirewallRuleEncoder
unfolding add_rule insert lookup
add_output_rule rule e = add_rule (codes "output") rule e

-- `Encode`.
unfoldable pub encode : FirewallRuleEncoder → Bytes
unfolding encode_firewall_rules
encode e = encode_firewall_rules e.rules

pub additional_parts : Map Bytes → List Bytes → List Bytes
additional_parts additional [] = []
additional_parts additional (key ∷ ks) =
    (key ++ (codes "=" ++ query_escape (get_or key [] additional))) ∷ additional_parts additional ks

abbrev pub unless_empty : Bytes → List Bytes
unless_empty [] = []
unless_empty (c ∷ s) = (c ∷ s) ∷ []

-- `EncodeToString`: the additional pairs, then the rules, if there is any.
unfoldable pub encode_to_string : Map Bytes → FirewallRuleEncoder → Bytes
unfolding additional_parts encode sorted_keys query_escape join lookup
encode_to_string additional e =
    join (codes "&")
      (additional_parts additional (sorted_keys additional) ++ unless_empty (encode e))

-- `RuleBuilder`. A setter returns the builder, so that calls chain.
pub record RuleBuilder : Type 0 where
  pub data' : Rule

abbrev pub new_rule_builder : RuleBuilder
new_rule_builder = record { data' = [] }

-- A port is given as `any`; what `%v` prints of a type that is not listed is its own text.
pub data Port : Type 0 where
  string : Bytes → Port
  int : ℤ → Port
  uint16 : ℕ → Port
  any_other : Bytes → Port

unfoldable pub to_string : Port → Bytes
unfolding itoa_int itoa
to_string (string val) = val
to_string (int val) = itoa_int val
to_string (uint16 val) = itoa val
to_string (any_other printed) = printed

abbrev put : Bytes → Bytes → RuleBuilder → RuleBuilder
put key value r = record { data' = insert key value r.data' }

unfoldable pub name : Bytes → RuleBuilder → RuleBuilder
unfolding insert
name = put (codes "name")

unfoldable pub ip_version : Bytes → RuleBuilder → RuleBuilder
unfolding insert
ip_version = put (codes "ip_version")

unfoldable pub action : Bytes → RuleBuilder → RuleBuilder
unfolding insert
action = put (codes "action")

unfoldable pub protocol : Bytes → RuleBuilder → RuleBuilder
unfolding insert
protocol = put (codes "protocol")

unfoldable pub source_ip : Bytes → RuleBuilder → RuleBuilder
unfolding insert
source_ip = put (codes "src_ip")

unfoldable pub dest_ip : Bytes → RuleBuilder → RuleBuilder
unfolding insert
dest_ip = put (codes "dst_ip")

unfoldable pub source_port : Port → RuleBuilder → RuleBuilder
unfolding insert to_string
source_port port = put (codes "src_port") (to_string port)

unfoldable pub dest_port : Port → RuleBuilder → RuleBuilder
unfolding insert to_string
dest_port port = put (codes "dst_port") (to_string port)

unfoldable pub tcp_flags : Bytes → RuleBuilder → RuleBuilder
unfolding insert
tcp_flags = put (codes "tcp_flags")

abbrev pub build : RuleBuilder → Rule
build r = r.data'

documented_example :
    encode_firewall_rules (
      (codes "input", ((codes "name", codes "rule1") ∷ (codes "action", codes "accept") ∷ []) ∷ [])
      ∷ [])
    ≡ codes "rules[input][0][action]=accept&rules[input][0][name]=rule1"
unfolding encode_firewall_rules
documented_example = refl
