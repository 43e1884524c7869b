-- ===== src/Firewall/Service/Asked.antt =====
-- The rulesets of `FirewallService.encodeRules` as a server reads them.
use hrobot_go.Base.{
  ℕ, ◌+◌, ◌≡◌, refl, ap, ap₂, subst, sym, ◌∙◌, List, [], ◌∷◌, ◌++◌, append-nil, append_assoc, map,
  Bytes, codes, All, Map, keys, lookup, insert, bytes_eq, value_or, sort_strings, text_leb, false,
  arith,
}
use hrobot_go.Url.Escape.{IsByte}
use hrobot_go.Url.Query.{IsKeyByte, parse_query}
use hrobot_go.UrlEncode.{
  Rule, Directions, sorted_keys, FirewallRuleEncoder, new_firewall_rule_encoder, add_input_rule,
  add_output_rule, add_rule,
}
use hrobot_go.UrlEncode.Parse.{
  IsPlainMap, IsPlainRule, IsPlainDirections, additional_pairs, rule_pairs, direction_pairs,
  parse_query-encode_to_string,
}
use hrobot_go.Firewall.Data.{FirewallRule, FirewallRules}
use hrobot_go.Firewall.Service.{encode_rule, add_inputs, add_outputs, encode_rules}
use hrobot_go.Firewall.Service.Filled.{filled-All, rule_fields, other_fields}
use hrobot_go.Firewall.Service.Fields.{
  Holds, indexed, sorted_keys-encode_rule, encode_rule-Holds, field_pairs-encode_rule,
}

abbrev pub IsPlainField : Bytes × Bytes → Type 0
IsPlainField (k, v) = All IsKeyByte k × All IsByte v

IsPlainMap-Holds : (m xs : Map Bytes) → Holds m xs → All IsPlainField xs → IsPlainMap m (keys xs)
unfolding Holds
IsPlainMap-Holds m [] h plain = tt
IsPlainMap-Holds m ((k, v) ∷ xs) (hk, h) ((pk, pv), plain) =
    (pk, subst (λ o. All IsByte (value_or [] o)) (sym hk) pv, IsPlainMap-Holds m xs h plain)

-- A rule whose fields are strings of bytes.
unfoldable pub IsByteRule : FirewallRule → Type 0
IsByteRule r = All (All IsByte) (
    r.action ∷ r.dest_ip ∷ r.dest_port ∷ r.ip_version ∷ r.name ∷ r.protocol ∷ r.source_ip
    ∷ r.source_port ∷ r.tcp_flags ∷ [])

IsPlainRule-encode_rule : (r : FirewallRule) → IsByteRule r → IsPlainRule (encode_rule r)
unfolding IsByteRule
IsPlainRule-encode_rule r (h0, (h1, (h2, (h3, (h4, (h5, (h6, (h7, (h8, _))))))))) =
    subst (IsPlainMap (encode_rule r)) (sym (sorted_keys-encode_rule r)) (
      IsPlainMap-Holds (encode_rule r) (rule_fields r) (encode_rule-Holds r) (
        (omega arith, h0),
        filled-All IsPlainField (other_fields r) (
          (omega arith, h1),
          (
            (omega arith, h2),
            (
              (omega arith, h3),
              (
                (omega arith, h4),
                (
                  (omega arith, h5),
                  ((omega arith, h6), ((omega arith, h7), ((omega arith, h8), tt))),
                ),
              ),
            ),
          ),
        ),
      ))

IsPlainRules-encode_rule :
    (rs : List FirewallRule) → All IsByteRule rs → All IsPlainRule (map encode_rule rs)
IsPlainRules-encode_rule [] h = tt
IsPlainRules-encode_rule (r ∷ rs) (hr, h) =
    (IsPlainRule-encode_rule r hr, IsPlainRules-encode_rule rs h)

-- The pairs of the rules of a direction, in their order.
abbrev pub ruleset_pairs : Bytes → ℕ → List FirewallRule → List (Bytes × Bytes)
ruleset_pairs direction i [] = []
ruleset_pairs direction i (r ∷ rs) =
    indexed direction i (rule_fields r) ++ ruleset_pairs direction (i + 1) rs

rule_pairs-encode_rule :
    (direction : Bytes) (i : ℕ) (rs : List FirewallRule)
    → rule_pairs direction i (map encode_rule rs) ≡ ruleset_pairs direction i rs
rule_pairs-encode_rule direction i [] = refl
rule_pairs-encode_rule direction i (r ∷ rs) =
    ap₂ (λ xs ys. xs ++ ys) (field_pairs-encode_rule direction i r)
      (rule_pairs-encode_rule direction (i + 1) rs)

-- What the encoder holds for a direction: nothing without a rule.
abbrev entry : Bytes → List FirewallRule → Directions
entry direction [] = []
entry direction (r ∷ rs) = (direction, map encode_rule (r ∷ rs)) ∷ []

add_inputs_more :
    (rs : List FirewallRule) (xs : List Rule)
    → add_inputs rs (record { rules = (codes "input", xs) ∷ [] })
      ≡ record { rules = (codes "input", xs ++ map encode_rule rs) ∷ [] }
unfolding add_inputs add_input_rule add_rule insert lookup bytes_eq
add_inputs_more [] xs = rw (append-nil xs) refl
add_inputs_more (r ∷ rs) xs =
    add_inputs_more rs (xs ++ (encode_rule r ∷ []))
    ∙ rw (append_assoc xs (encode_rule r ∷ []) (map encode_rule rs)) refl

add_inputs_lem :
    (rs : List FirewallRule)
    → add_inputs rs new_firewall_rule_encoder ≡ record { rules = entry (codes "input") rs }
unfolding add_inputs add_input_rule add_rule insert lookup bytes_eq
add_inputs_lem [] = refl
add_inputs_lem (r ∷ rs) = add_inputs_more rs (encode_rule r ∷ [])

-- The encoder with the inputs and some outputs.
with_outputs : List FirewallRule → List Rule → FirewallRuleEncoder
with_outputs input xs = record {
  rules = entry (codes "input") input ++ ((codes "output", xs) ∷ []);
}

add_output_rule_first :
    (input : List FirewallRule) (x : Rule)
    → add_output_rule x (record { rules = entry (codes "input") input })
      ≡ with_outputs input (x ∷ [])
unfolding add_output_rule add_rule insert lookup bytes_eq with_outputs
add_output_rule_first [] x = refl
add_output_rule_first (r ∷ rs) x = refl

add_output_rule_next :
    (input : List FirewallRule) (x : Rule) (xs : List Rule)
    → add_output_rule x (with_outputs input xs) ≡ with_outputs input (xs ++ (x ∷ []))
unfolding add_output_rule add_rule insert lookup bytes_eq with_outputs
add_output_rule_next [] x xs = refl
add_output_rule_next (r ∷ rs) x xs = refl

add_outputs_more :
    (input rs : List FirewallRule) (xs : List Rule)
    → add_outputs rs (with_outputs input xs) ≡ with_outputs input (xs ++ map encode_rule rs)
unfolding add_outputs
add_outputs_more input [] xs = rw (append-nil xs) refl
add_outputs_more input (r ∷ rs) xs =
    ap (add_outputs rs) (add_output_rule_next input (encode_rule r) xs)
    ∙ add_outputs_more input rs (xs ++ (encode_rule r ∷ []))
    ∙ rw (append_assoc xs (encode_rule r ∷ []) (map encode_rule rs)) refl

add_outputs_lem :
    (input output : List FirewallRule)
    → add_outputs output (record { rules = entry (codes "input") input })
      ≡ record { rules = entry (codes "input") input ++ entry (codes "output") output }
unfolding add_outputs with_outputs
add_outputs_lem input [] = rw (append-nil (entry (codes "input") input)) refl
add_outputs_lem input (r ∷ rs) =
    ap (add_outputs rs) (add_output_rule_first input (encode_rule r))
    ∙ add_outputs_more input rs (encode_rule r ∷ [])

-- The directions that the encoder holds for a ruleset.
directions_of : FirewallRules → Directions
directions_of rules = entry (codes "input") rules.input ++ entry (codes "output") rules.output

encoder_lem :
    (rules : FirewallRules)
    → add_outputs rules.output (add_inputs rules.input new_firewall_rule_encoder)
      ≡ record { rules = directions_of rules }
unfolding directions_of
encoder_lem rules =
    ap (add_outputs rules.output) (add_inputs_lem rules.input)
    ∙ add_outputs_lem rules.input rules.output

-- The pairs of a ruleset: the inputs, then the outputs.
abbrev pub rules_pairs : FirewallRules → List (Bytes × Bytes)
rules_pairs rules =
    ruleset_pairs (codes "input") 0 rules.input ++ ruleset_pairs (codes "output") 0 rules.output

direction_pairs_lem :
    (input output : List FirewallRule)
    → let m = directions_of (record { input = input; output = output }) in
      direction_pairs m (sorted_keys m) ≡ rules_pairs (record { input = input; output = output })
unfolding directions_of sorted_keys sort_strings text_leb lookup bytes_eq
direction_pairs_lem [] [] = refl
direction_pairs_lem [] (r ∷ rs) = append-nil _ ∙ rule_pairs-encode_rule (codes "output") 0 (r ∷ rs)
direction_pairs_lem (r ∷ rs) [] =
    ap (λ xs. xs ++ []) (rule_pairs-encode_rule (codes "input") 0 (r ∷ rs))
direction_pairs_lem (r ∷ rs) (r' ∷ rs') =
    ap₂ (λ xs ys. xs ++ ys) (rule_pairs-encode_rule (codes "input") 0 (r ∷ rs))
      (append-nil _ ∙ rule_pairs-encode_rule (codes "output") 0 (r' ∷ rs'))

directions_of-IsPlain :
    (input output : List FirewallRule)
    → All IsByteRule input
    → All IsByteRule output
    → let m = directions_of (record { input = input; output = output }) in
      IsPlainDirections m (sorted_keys m)
unfolding directions_of sorted_keys sort_strings text_leb lookup bytes_eq
directions_of-IsPlain [] [] hi ho = tt
directions_of-IsPlain [] (r ∷ rs) hi ho = (omega arith, IsPlainRules-encode_rule (r ∷ rs) ho, tt)
directions_of-IsPlain (r ∷ rs) [] hi ho = (omega arith, IsPlainRules-encode_rule (r ∷ rs) hi, tt)
directions_of-IsPlain (r ∷ rs) (r' ∷ rs') hi ho = (
  omega arith,
  IsPlainRules-encode_rule (r ∷ rs) hi,
  (omega arith, IsPlainRules-encode_rule (r' ∷ rs') ho, tt),
)

-- From the body that is posted for a ruleset whose fields are strings of bytes, with extra fields
-- whose keys need no escaping, a server reads the extra fields, then every input rule and then
-- every output rule, in their order, each with its action and every other field that is not empty,
-- with their exact values, and nothing else.
pub parse_query-encode_rules :
    (rules : FirewallRules) (extra : Map Bytes)
    → All IsByteRule rules.input
    → All IsByteRule rules.output
    → IsPlainMap extra (sorted_keys extra)
    → parse_query (encode_rules rules extra) ≡ record {
      pairs = additional_pairs extra (sorted_keys extra) ++ rules_pairs rules;
      failed = false;
    }
unfolding encode_rules
parse_query-encode_rules rules extra hi ho he = rw (encoder_lem rules) (
    parse_query-encode_to_string extra (record { rules = directions_of rules }) he
      (directions_of-IsPlain rules.input rules.output hi ho)
    ∙ rw (direction_pairs_lem rules.input rules.output) refl)
