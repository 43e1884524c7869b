-- ===== src/Spectest/Keys/Matches.antt =====
-- The check of a firewall key allows the keys that the encoder makes.
use hrobot_go.Base.{
  ℕ, ◌≡◌, ◌≢◌, refl, ap, ◌∙◌, ◌⊎◌, inl, inr, true, [], ◌∷◌, ◌++◌, Bytes, codes, All, All-append,
  All-weaken, some, bytes_eq, itoa, itoa-IsDigit, itoa-ne-nil, Lacks, span-append, strip,
  strip-append, behind_last, behind_last-append, behind_last-Lacks, contains_byte, or_else, arith,
}
use hrobot_go.UrlEncode.{hier_key}
use hrobot_go.Firewall.Service.{}
use hrobot_go.Firewall.Service.Posts.{}
use hrobot_go.Spectest.Keys.{
  is_digit, is_field_byte, field_matches, behind_index, index_matches, behind_direction,
  behind_rules, firewall_rule_key, firewall_allowed_fields, but_last, field_of,
  firewall_rule_key_or_scalar,
}

-- The name of a field that the check allows.
pub record IsField (k : Bytes) : Type 0 where
  pub allowed : firewall_allowed_fields k ≡ true
  pub bytes : All (λ c. is_field_byte c ≡ true) k
  pub filled : k ≢ []

-- A direction of the rules.
abbrev pub IsDirection : Bytes → Type 0
IsDirection d = (d ≡ codes "input") ⊎ (d ≡ codes "output")

field_matches_lem : (k : Bytes) → k ≢ [] → field_matches (k, codes "]") ≡ true
unfolding field_matches bytes_eq
field_matches_lem [] h = absurd (h refl)
field_matches_lem (c ∷ k) h = refl

index_matches_lem :
    (d rest : Bytes) → d ≢ [] → index_matches (d, rest) ≡ behind_index (strip (codes "][") rest)
unfolding index_matches
index_matches_lem [] rest h = absurd (h refl)
index_matches_lem (c ∷ d) rest h = refl

behind_index_lem : (k : Bytes) → IsField k → behind_index (some (k ++ codes "]")) ≡ true
unfolding behind_index
behind_index_lem k h =
    ap field_matches (span-append is_field_byte k (codes "]") h.bytes refl)
    ∙ field_matches_lem k h.filled

behind_direction_lem :
    (i : ℕ) (k : Bytes)
    → IsField k
    → behind_direction (some (itoa i ++ (codes "][" ++ (k ++ codes "]")))) ≡ true
unfolding behind_direction
behind_direction_lem i k h =
    ap index_matches (
      span-append is_digit (itoa i) (codes "][" ++ (k ++ codes "]"))
        (All-weaken _ _ (λ c d. ground arith) (itoa i) (itoa-IsDigit i)) refl)
    ∙ index_matches_lem (itoa i) (codes "][" ++ (k ++ codes "]")) (itoa-ne-nil i)
    ∙ ap behind_index (strip-append (codes "][") (k ++ codes "]"))
    ∙ behind_index_lem k h

firewall_rule_key-hier_key :
    (d : Bytes) (i : ℕ) (k : Bytes)
    → IsDirection d
    → IsField k
    → firewall_rule_key (hier_key d i k) ≡ true
unfolding firewall_rule_key hier_key behind_rules
firewall_rule_key-hier_key d i k hd h = elim hd [
  | inl e ↦ rw e (input i k h)
  | inr e ↦ rw e (output i k h)
]
  where
    tail : ℕ → Bytes → Bytes
    tail i k = itoa i ++ (codes "][" ++ (k ++ codes "]"))

    input :
        (i : ℕ) (k : Bytes)
        → IsField k
        → firewall_rule_key (codes "rules[" ++ (codes "input][" ++ tail i k)) ≡ true
    input i k h =
        ap behind_rules (strip-append (codes "rules[") (codes "input][" ++ tail i k))
        ∙ ap
            (λ o.
              behind_direction (or_else o (strip (codes "output][") (codes "input][" ++ tail i k))))
            (strip-append (codes "input][") (tail i k))
        ∙ behind_direction_lem i k h

    output :
        (i : ℕ) (k : Bytes)
        → IsField k
        → firewall_rule_key (codes "rules[" ++ (codes "output][" ++ tail i k)) ≡ true
    output i k h =
        ap behind_rules (strip-append (codes "rules[") (codes "output][" ++ tail i k))
        ∙ ap (λ o. behind_direction o) (strip-append (codes "output][") (tail i k))
        ∙ behind_direction_lem i k h

but_last-snoc : (k : Bytes) → but_last (k ++ codes "]") ≡ k
unfolding but_last
but_last-snoc [] = refl
but_last-snoc (c ∷ []) = refl
but_last-snoc (c ∷ d ∷ k) = ap (λ s. c ∷ s) (but_last-snoc (d ∷ k))

field_of-hier_key :
    (d : Bytes) (i : ℕ) (k : Bytes)
    → Lacks b'[' k
    → field_of (hier_key d i k) (behind_last b'[' (hier_key d i k)) ≡ k
unfolding hier_key field_of
field_of-hier_key d i k h =
    ap (field_of (hier_key d i k)) (
      behind_last-append b'[' (codes "rules[") _ (
        behind_last-append b'[' d _
          (behind_last-append b'[' (codes "][") _ (behind_last-append b'[' (itoa i) _ (last k h)))))
    ∙ but_last-snoc k
  where
    last :
        (k : Bytes)
        → Lacks b'[' k
        → behind_last b'[' (codes "][" ++ (k ++ codes "]")) ≡ some (k ++ codes "]")
    last k h =
        unfold behind_last in
        rw (behind_last-Lacks b'[' (k ++ codes "]") (All-append _ k _ h (omega arith))) refl

pub firewall_rule_key_or_scalar-hier_key :
    (d : Bytes) (i : ℕ) (k : Bytes)
    → IsDirection d
    → IsField k
    → firewall_rule_key_or_scalar (hier_key d i k) ≡ true
unfolding firewall_rule_key_or_scalar
firewall_rule_key_or_scalar-hier_key d i k hd h =
    rw
      (
        opened d i k,
        firewall_rule_key-hier_key d i k hd h,
        field_of-hier_key d i k (All-weaken _ _ (λ c b. ground arith) k h.bytes),
      )
      h.allowed
  where
    opened : (d : Bytes) (i : ℕ) (k : Bytes) → contains_byte b'[' (hier_key d i k) ≡ true
    opened d i k = unfold hier_key contains_byte in refl
