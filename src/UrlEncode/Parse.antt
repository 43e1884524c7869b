-- ===== src/UrlEncode/Parse.antt =====
-- What a server reads from the encoder's output.
use hrobot_go.Base.{
  ℕ, ◌+◌, ◌≡◌, ◌≢◌, refl, List, [], ◌∷◌, ◌++◌, arith, Bytes, codes, All, All-append, All-weaken,
  itoa, itoa-IsDigit, join, Map, get_or, ap, ◌∙◌, false,
}
use hrobot_go.Url.Escape.{IsByte}
use hrobot_go.Url.Query.{
  parse_query, AllEncode, AllEncode-append, IsKeyByte, pair-Encodes, parse_query-join,
}
use hrobot_go.UrlEncode.{
  Rule, Directions, sorted_keys, hier_key, field_parts, rule_parts, direction_parts,
  FirewallRuleEncoder, encode, additional_parts, unless_empty, encode_to_string,
}

-- The pairs that the output stands for, in its order.
abbrev pub field_pairs : Bytes → ℕ → Rule → List Bytes → List (Bytes × Bytes)
field_pairs direction i rule [] = []
field_pairs direction i rule (key ∷ ks) =
    (hier_key direction i key, get_or key [] rule) ∷ field_pairs direction i rule ks

abbrev pub rule_pairs : Bytes → ℕ → List Rule → List (Bytes × Bytes)
rule_pairs direction i [] = []
rule_pairs direction i (rule ∷ rules) =
    field_pairs direction i rule (sorted_keys rule) ++ rule_pairs direction (i + 1) rules

abbrev pub direction_pairs : Directions → List Bytes → List (Bytes × Bytes)
direction_pairs rules [] = []
direction_pairs rules (direction ∷ ds) =
    rule_pairs direction 0 (get_or direction [] rules) ++ direction_pairs rules ds

abbrev pub additional_pairs : Map Bytes → List Bytes → List (Bytes × Bytes)
additional_pairs additional [] = []
additional_pairs additional (key ∷ ks) =
    (key, get_or key [] additional) ∷ additional_pairs additional ks

abbrev pub pairs_of : Map Bytes → FirewallRuleEncoder → List (Bytes × Bytes)
pairs_of additional e =
    additional_pairs additional (sorted_keys additional)
    ++ direction_pairs e.rules (sorted_keys e.rules)

-- The keys need no escaping and the values are byte strings.
abbrev pub IsPlainMap : Map Bytes → List Bytes → Type 0
IsPlainMap m [] = Unit
IsPlainMap m (k ∷ ks) = All IsKeyByte k × All IsByte (get_or k [] m) × IsPlainMap m ks

abbrev pub IsPlainRule : Rule → Type 0
IsPlainRule rule = IsPlainMap rule (sorted_keys rule)

abbrev pub IsPlainDirections : Directions → List Bytes → Type 0
IsPlainDirections rules [] = Unit
IsPlainDirections rules (d ∷ ds) =
    All IsKeyByte d × All IsPlainRule (get_or d [] rules) × IsPlainDirections rules ds

hier_key-IsKeyByte :
    (direction : Bytes) (i : ℕ) (key : Bytes)
    → All IsKeyByte direction
    → All IsKeyByte key
    → All IsKeyByte (hier_key direction i key)
unfolding hier_key
hier_key-IsKeyByte direction i key hd hk = All-append _ (codes "rules[") _ (omega arith) (
    All-append _ direction _ hd (
      All-append _ (codes "][") _ (omega arith) (
        All-append _ (itoa i) _ (All-weaken _ _ (λ c h. omega arith) (itoa i) (itoa-IsDigit i))
          (All-append _ (codes "][") _ (omega arith) (All-append _ key _ hk (omega arith))))))

field_parts-AllEncode :
    (direction : Bytes) (i : ℕ) (rule : Rule) (ks : List Bytes)
    → All IsKeyByte direction
    → IsPlainMap rule ks
    → AllEncode (field_parts direction i rule ks) (field_pairs direction i rule ks)
unfolding field_parts
field_parts-AllEncode direction i rule [] hd h = tt
field_parts-AllEncode direction i rule (k ∷ ks) hd h = (
  pair-Encodes (hier_key direction i k) (get_or k [] rule) (hier_key-IsKeyByte direction i k hd h.0)
      h.1,
  field_parts-AllEncode direction i rule ks hd h.2,
)

rule_parts-AllEncode :
    (direction : Bytes) (i : ℕ) (rules : List Rule)
    → All IsKeyByte direction
    → All IsPlainRule rules
    → AllEncode (rule_parts direction i rules) (rule_pairs direction i rules)
unfolding rule_parts
rule_parts-AllEncode direction i [] hd h = tt
rule_parts-AllEncode direction i (rule ∷ rules) hd (h, hs) =
    AllEncode-append (field_parts direction i rule (sorted_keys rule)) _ _ _
      (field_parts-AllEncode direction i rule (sorted_keys rule) hd h)
      (rule_parts-AllEncode direction (i + 1) rules hd hs)

direction_parts-AllEncode :
    (rules : Directions) (ds : List Bytes)
    → IsPlainDirections rules ds
    → AllEncode (direction_parts rules ds) (direction_pairs rules ds)
unfolding direction_parts
direction_parts-AllEncode rules [] h = tt
direction_parts-AllEncode rules (d ∷ ds) h =
    AllEncode-append (rule_parts d 0 (get_or d [] rules)) _ _ _
      (rule_parts-AllEncode d 0 (get_or d [] rules) h.0 h.1)
      (direction_parts-AllEncode rules ds h.2)

additional_parts-AllEncode :
    (m : Map Bytes) (ks : List Bytes)
    → IsPlainMap m ks
    → AllEncode (additional_parts m ks) (additional_pairs m ks)
unfolding additional_parts
additional_parts-AllEncode m [] h = tt
additional_parts-AllEncode m (k ∷ ks) h =
    (pair-Encodes k (get_or k [] m) h.0 h.1, additional_parts-AllEncode m ks h.2)

-- Joining in two stages is joining once.
join-nested :
    (sep : Bytes) (xs : List Bytes) (y : Bytes) (ys : List Bytes)
    → join sep (xs ++ join sep (y ∷ ys) ∷ []) ≡ join sep (xs ++ y ∷ ys)
unfolding join
join-nested sep [] y ys = refl
join-nested sep (x ∷ []) y ys = refl
join-nested sep (x ∷ x' ∷ xs) y ys = ap (λ s. x ++ (sep ++ s)) (join-nested sep (x' ∷ xs) y ys)

join-ne-nil : (sep y : Bytes) (ys : List Bytes) → y ≢ [] → join sep (y ∷ ys) ≢ []
unfolding join
join-ne-nil sep y [] h = h
join-ne-nil sep [] (z ∷ zs) h = absurd (h refl)
join-ne-nil sep (c ∷ y) (z ∷ zs) h = λ p. cc

unless_empty-ne : (s : Bytes) → s ≢ [] → unless_empty s ≡ s ∷ []
unless_empty-ne [] h = absurd (h refl)
unless_empty-ne (c ∷ s) h = refl

join-unless_empty :
    (sep : Bytes) (xs ys : List Bytes)
    → All (λ t. t ≢ []) ys
    → join sep (xs ++ unless_empty (join sep ys)) ≡ join sep (xs ++ ys)
join-unless_empty sep xs [] h = unfold join in refl
join-unless_empty sep xs (y ∷ ys) (h, hs) =
    rw (unless_empty-ne (join sep (y ∷ ys)) (join-ne-nil sep y ys h)) (join-nested sep xs y ys)

All-filled :
    (ts : List Bytes) (kvs : List (Bytes × Bytes)) → AllEncode ts kvs → All (λ t. t ≢ []) ts
All-filled [] kvs h = tt
All-filled (t ∷ ts) [] h = absurd h
All-filled (t ∷ ts) (_ ∷ kvs) (h, hs) = (h.filled, All-filled ts kvs hs)

pub parse_query-encode_to_string :
    (additional : Map Bytes) (e : FirewallRuleEncoder)
    → IsPlainMap additional (sorted_keys additional)
    → IsPlainDirections e.rules (sorted_keys e.rules)
    → parse_query (encode_to_string additional e)
      ≡ record { pairs = pairs_of additional e; failed = false }
unfolding encode_to_string encode
parse_query-encode_to_string additional e ha he =
    let whole = additional_parts additional (sorted_keys additional) in
    let rules = direction_parts e.rules (sorted_keys e.rules) in
    let rules_encode = direction_parts-AllEncode e.rules (sorted_keys e.rules) he in
    ap parse_query (join-unless_empty (codes "&") whole rules (All-filled rules _ rules_encode))
    ∙ parse_query-join (whole ++ rules) (pairs_of additional e) (
        AllEncode-append whole rules _ _
          (additional_parts-AllEncode additional (sorted_keys additional) ha) rules_encode)
