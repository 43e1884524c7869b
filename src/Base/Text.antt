-- ===== src/Base/Text.antt =====
-- Go strings and byte slices: sequences of bytes, with equality, the order that `sort.Strings`
-- uses, the search functions of `strings`, and decimal printing.
use Prim.Native.Char.{code}
use Prim.Native.String.{String}
use Prim.Native.Nat.{ℕ}
use mathlib.Core.Path.{◌≡◌, refl}
use mathlib.Core.Logic.{◌⊎◌, inl, inr, ◌↔◌, ◌≢◌}
use mathlib.Core.Bool.{Bool, true, false, ◌&&◌, ◌||◌}
use mathlib.Core.List.{List, [], ◌∷◌, ◌++◌}
use native.Mathlib.Omega.{arith}
use hrobot_go.Base.Tests.{Eq, Bool-cases, ◌==◌, ==_iff, if◌then◌else◌}
use hrobot_go.Base.Lists.{list_eq, list_eq→eq, list_eq_refl, All}

abbrev pub Bytes : Type 0
Bytes = List ℕ

-- The bytes of a literal; the source's literals are ASCII.
abbrev pub codes : String → Bytes
codes String.[] = []
codes (String.◌∷◌ c s) = code c ∷ codes s

instance abbrev pub nat_eq : Eq ℕ
nat_eq = record { beq = ◌==◌; beq_iff = ==_iff }

unfoldable pub bytes_eq : Bytes → Bytes → Bool
unfolding list_eq
bytes_eq = list_eq

pub bytes_eq_iff : (a b : Bytes) → (bytes_eq a b ≡ true) ↔ (a ≡ b)
unfolding bytes_eq
bytes_eq_iff a b = (list_eq→eq a b, λ p. rw p (list_eq_refl b))

pub bytes_eq_ne : (a b : Bytes) → a ≢ b → bytes_eq a b ≡ false
bytes_eq_ne a b h = elim (Bool-cases (bytes_eq a b)) [
  | inl t ↦ absurd (h ((bytes_eq_iff a b).0 t))
  | inr f ↦ f
]

instance unfoldable pub text_eq : Eq Bytes
unfolding bytes_eq
text_eq = record { beq = bytes_eq; beq_iff = bytes_eq_iff }

-- `strings.Contains` and `ContainsRune` for one ASCII character.
unfoldable pub contains_byte : ℕ → Bytes → Bool
contains_byte b [] = false
contains_byte b (c ∷ s) = c == b || contains_byte b s

-- No byte of the text is `b`.
abbrev pub Lacks : ℕ → Bytes → Type 0
Lacks b = All (λ c. c ≢ b)

pub contains_byte-Lacks : (b : ℕ) (s : Bytes) → Lacks b s → contains_byte b s ≡ false
unfolding contains_byte
contains_byte-Lacks b [] h = refl
contains_byte-Lacks b (c ∷ s) (hc, hs) = ground (arith, contains_byte-Lacks b s hs)

pub Lacks-contains_byte : (b : ℕ) (s : Bytes) → contains_byte b s ≡ false → Lacks b s
unfolding contains_byte
Lacks-contains_byte b [] h = tt
Lacks-contains_byte b (c ∷ s) h = ground (arith, Lacks-contains_byte b s)

pub contains_byte-append_cons : (b : ℕ) (s t : Bytes) → contains_byte b (s ++ b ∷ t) ≡ true
unfolding contains_byte
contains_byte-append_cons b [] t = ground arith
contains_byte-append_cons b (c ∷ s) t = ground (arith, contains_byte-append_cons b s t)

-- `strings.HasPrefix`.
unfoldable pub has_prefix : Bytes → Bytes → Bool
has_prefix s [] = true
has_prefix [] (p ∷ ps) = false
has_prefix (c ∷ s) (p ∷ ps) = c == p && has_prefix s ps

-- `strings.SplitN(s, sep, 2)` where the separator occurs: what stands before and after it.
unfoldable pub cut : ℕ → Bytes → Bytes × Bytes
cut b [] = ([], [])
cut b (c ∷ s) = if c == b then ([], s) else (c ∷ (cut b s).0, (cut b s).1)

pub cut-append : (b : ℕ) (s t : Bytes) → Lacks b s → cut b (s ++ b ∷ t) ≡ (s, t)
unfolding cut
cut-append b [] t h = ground arith
cut-append b (c ∷ s) t (hc, hs) = ground (arith, cut-append b s t hs)

-- `strings.Split`: the parts between the separators, at least one.
pub data Parts : Type 0 where
  last : Bytes → Parts
  part : Bytes → Parts → Parts

abbrev onto_first : ℕ → Parts → Parts
onto_first c (last p) = last (c ∷ p)
onto_first c (part p ps) = part (c ∷ p) ps

abbrev pub to_list : Parts → List Bytes
to_list (last p) = p ∷ []
to_list (part p ps) = p ∷ to_list ps

split_parts : ℕ → Bytes → Parts
split_parts b [] = last []
split_parts b (c ∷ s) =
    let rest = split_parts b s in if c == b then part [] rest else onto_first c rest

unfoldable pub split : ℕ → Bytes → List Bytes
unfolding split_parts
split b s = to_list (split_parts b s)

-- `strings.Join`.
unfoldable pub join : Bytes → List Bytes → Bytes
join sep [] = []
join sep (p ∷ []) = p
join sep (p ∷ q ∷ ps) = p ++ (sep ++ join sep (q ∷ ps))

split_parts-last : (b : ℕ) (s : Bytes) → Lacks b s → split_parts b s ≡ last s
unfolding split_parts
split_parts-last b [] h = refl
split_parts-last b (c ∷ s) (hc, hs) = rw (split_parts-last b s hs) (ground arith)

split_parts-part :
    (b : ℕ) (s t : Bytes) → Lacks b s → split_parts b (s ++ b ∷ t) ≡ part s (split_parts b t)
unfolding split_parts
split_parts-part b [] t h = ground arith
split_parts-part b (c ∷ s) t (hc, hs) = rw (split_parts-part b s t hs) (ground arith)

-- Splitting undoes joining where no part holds the separator.
pub split-join :
    (b : ℕ) (p : Bytes) (ps : List Bytes)
    → Lacks b p
    → All (Lacks b) ps
    → split b (join (b ∷ []) (p ∷ ps)) ≡ p ∷ ps
unfolding split join
split-join b p [] h hs = rw (split_parts-last b p h)
split-join b p (q ∷ qs) h (hq, hqs) =
    rw (split_parts-part b p (join (b ∷ []) (q ∷ qs)) h) (rw (split-join b q qs hq hqs))

-- No part of a split holds the separator.
split_parts-Lacks : (b : ℕ) (s : Bytes) → All (Lacks b) (to_list (split_parts b s))
unfolding split_parts
split_parts-Lacks b [] = (tt, tt)
split_parts-Lacks b (c ∷ s) = step (Bool-cases (c == b)) (split_parts-Lacks b s)
  where
    onto :
        (ps : Parts)
        → c ≢ b
        → All (Lacks b) (to_list ps)
        → All (Lacks b) (to_list (onto_first c ps))
    onto (last p) n h = ((n, h.0), tt)
    onto (part p ps) n h = ((n, h.0), h.1)

    step :
        ((c == b) ≡ true) ⊎ ((c == b) ≡ false)
        → All (Lacks b) (to_list (split_parts b s))
        → All (Lacks b) (to_list (split_parts b (c ∷ s)))
    step (inl same) ih = rw same (tt, ih)
    step (inr differs) ih = rw differs (onto (split_parts b s) (ground arith) ih)

pub split-Lacks : (b : ℕ) (s : Bytes) → All (Lacks b) (split b s)
unfolding split
split-Lacks b s = split_parts-Lacks b s

-- `strconv.FormatBool`.
abbrev pub format_bool : Bool → Bytes
format_bool true = codes "true"
format_bool false = codes "false"
