-- ===== src/UrlEncode/Same.antt =====
-- The output does not depend on the order in which Go iterates its maps.
use hrobot_go.Base.{
  ℕ, ◌+◌, ◌≡◌, refl, List, [], ◌∷◌, ◌++◌, Option, none, some, Bytes, codes, Map, lookup, value_or,
  NodupKeys, Same, held, sort_strings-keys, ap, ap₂, ◌∙◌, join,
}
use hrobot_go.Url.Escape.{query_escape}
use hrobot_go.UrlEncode.{
  Rule, Directions, sorted_keys, hier_key, field_parts, rule_parts, direction_parts,
  encode_firewall_rules, FirewallRuleEncoder, encode, additional_parts, unless_empty,
  encode_to_string,
}

-- Two maps with no key twice and with the same entries.
abbrev pub SameMap : Map Bytes → Map Bytes → Type 0
SameMap m m' = NodupKeys m × NodupKeys m' × Same m m'

abbrev pub SameRules : List Rule → List Rule → Type 0
SameRules [] [] = Unit
SameRules (r ∷ rs) (r' ∷ rs') = SameMap r r' × SameRules rs rs'
SameRules _ _ = ⊥

abbrev SameEntry : Option (List Rule) → Option (List Rule) → Type 0
SameEntry none none = Unit
SameEntry (some rs) (some rs') = SameRules rs rs'
SameEntry _ _ = ⊥

-- Two maps of rule lists: the same directions, and in each the same rules in the same order.
abbrev pub SameDirections : Directions → Directions → Type 0
SameDirections m m' =
    NodupKeys m × NodupKeys m' × ((d : Bytes) → SameEntry (lookup d m) (lookup d m'))

sorted_keys-SameMap : (m m' : Map Bytes) → SameMap m m' → sorted_keys m ≡ sorted_keys m'
unfolding sorted_keys
sorted_keys-SameMap m m' s = sort_strings-keys m m' s.0 s.1 (λ k. ap held (s.2 k))

field_parts-Same :
    (d : Bytes) (i : ℕ) (r r' : Rule) (ks : List Bytes)
    → Same r r'
    → field_parts d i r ks ≡ field_parts d i r' ks
unfolding field_parts
field_parts-Same d i r r' [] s = refl
field_parts-Same d i r r' (k ∷ ks) s =
    ap₂ (λ o rest. (hier_key d i k ++ (codes "=" ++ query_escape (value_or [] o))) ∷ rest) (s k)
      (field_parts-Same d i r r' ks s)

rule_parts-Same :
    (d : Bytes) (i : ℕ) (rs rs' : List Rule)
    → SameRules rs rs'
    → rule_parts d i rs ≡ rule_parts d i rs'
unfolding rule_parts
rule_parts-Same d i [] [] s = refl
rule_parts-Same d i [] (_ ∷ rs') s = absurd s
rule_parts-Same d i (r ∷ rs) [] s = absurd s
rule_parts-Same d i (r ∷ rs) (r' ∷ rs') (s, ss) =
    ap₂ (λ here rest. here ++ rest)
      (ap (field_parts d i r) (sorted_keys-SameMap r r' s)
        ∙ field_parts-Same d i r r' (sorted_keys r') s.2)
      (rule_parts-Same d (i + 1) rs rs' ss)

SameEntry-held : (o o' : Option (List Rule)) → SameEntry o o' → held o ≡ held o'
SameEntry-held none none s = refl
SameEntry-held none (some _) s = absurd s
SameEntry-held (some _) none s = absurd s
SameEntry-held (some _) (some _) s = refl

SameEntry-rules :
    (o o' : Option (List Rule)) → SameEntry o o' → SameRules (value_or [] o) (value_or [] o')
SameEntry-rules none none s = tt
SameEntry-rules none (some _) s = absurd s
SameEntry-rules (some _) none s = absurd s
SameEntry-rules (some _) (some _) s = s

direction_parts-Same :
    (m m' : Directions) (ds : List Bytes)
    → ((d : Bytes) → SameEntry (lookup d m) (lookup d m'))
    → direction_parts m ds ≡ direction_parts m' ds
unfolding direction_parts
direction_parts-Same m m' [] s = refl
direction_parts-Same m m' (d ∷ ds) s =
    ap₂ (λ here rest. here ++ rest)
      (rule_parts-Same d 0 _ _ (SameEntry-rules (lookup d m) (lookup d m') (s d)))
      (direction_parts-Same m m' ds s)

encode-Same : (e e' : FirewallRuleEncoder) → SameDirections e.rules e'.rules → encode e ≡ encode e'
unfolding encode encode_firewall_rules
encode-Same e e' s =
    ap (λ ps. join (codes "&") ps)
      (ap (direction_parts e.rules) (same_directions e.rules e'.rules s)
        ∙ direction_parts-Same e.rules e'.rules (sorted_keys e'.rules) s.2)
  where
    same_directions : (m m' : Directions) → SameDirections m m' → sorted_keys m ≡ sorted_keys m'
    same_directions m m' s =
        unfold sorted_keys in
        sort_strings-keys m m' s.0 s.1 (λ d. SameEntry-held (lookup d m) (lookup d m') (s.2 d))

additional_parts-Same :
    (m m' : Map Bytes) (ks : List Bytes)
    → Same m m'
    → additional_parts m ks ≡ additional_parts m' ks
unfolding additional_parts
additional_parts-Same m m' [] s = refl
additional_parts-Same m m' (k ∷ ks) s =
    ap₂ (λ o rest. (k ++ (codes "=" ++ query_escape (value_or [] o))) ∷ rest) (s k)
      (additional_parts-Same m m' ks s)

-- The body is determined by what the maps hold: by the additional fields, by the directions, and
-- by the sequence of rules of each direction with their fields.
pub encode_to_string-Same :
    (additional additional' : Map Bytes) (e e' : FirewallRuleEncoder)
    → SameMap additional additional'
    → SameDirections e.rules e'.rules
    → encode_to_string additional e ≡ encode_to_string additional' e'
unfolding encode_to_string
encode_to_string-Same m m' e e' s se =
    ap₂ (λ whole rules. join (codes "&") (whole ++ unless_empty rules))
      (ap (additional_parts m) (sorted_keys-SameMap m m' s)
        ∙ additional_parts-Same m m' (sorted_keys m') s.2)
      (encode-Same e e' se)
