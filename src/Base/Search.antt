-- ===== src/Base/Search.antt =====
-- Prefixes, suffixes and the last place of a byte: what the source does by regular expressions and
-- by functions of `strings`.
use Prim.Native.Nat.{ℕ}
use mathlib.Core.Path.{◌≡◌, refl, ap, ◌∙◌}
use mathlib.Core.Logic.{◌≢◌}
use mathlib.Core.Bool.{Bool, true, false}
use mathlib.Core.List.{[], ◌∷◌, ◌++◌}
use mathlib.Core.Option.{Option, none, some}
use native.Mathlib.Omega.{arith}
use hrobot_go.Base.Tests.{or_else, ◌==◌, ==_iff, if◌then◌else◌}
use hrobot_go.Base.Lists.{All}
use hrobot_go.Base.Text.{Bytes, Lacks}

-- The longest prefix whose bytes all pass a test, and the rest.
unfoldable pub span : (ℕ → Bool) → Bytes → Bytes × Bytes
span test [] = ([], [])
span test (c ∷ s) = let rest = span test s in if test c then (c ∷ rest.0, rest.1) else ([], c ∷ s)

-- The text does not begin with a byte that passes the test.
abbrev pub Stops : (ℕ → Bool) → Bytes → Type 0
Stops test [] = Unit
Stops test (c ∷ s) = test c ≡ false

pub span-append :
    (test : ℕ → Bool) (p s : Bytes)
    → All (λ c. test c ≡ true) p
    → Stops test s
    → span test (p ++ s) ≡ (p, s)
unfolding span
span-append test [] [] h k = refl
span-append test [] (c ∷ s) h k = rw k refl
span-append test (c ∷ p) s (hc, h) k = rw (hc, span-append test p s h k) refl

-- The text behind a prefix.
unfoldable pub strip : Bytes → Bytes → Option Bytes
strip [] s = some s
strip (c ∷ p) [] = none
strip (c ∷ p) (d ∷ s) = if c == d then strip p s else none

pub strip-append : (p s : Bytes) → strip p (p ++ s) ≡ some s
unfolding strip
strip-append [] s = refl
strip-append (c ∷ p) s = rw ((==_iff c c).1 refl) (strip-append p s)

-- `strings.LastIndexByte`: the text behind the last `b`, if there is one.
unfoldable pub behind_last : ℕ → Bytes → Option Bytes
behind_last b [] = none
behind_last b (c ∷ s) = or_else (behind_last b s) (if c == b then some s else none)

pub behind_last-append :
    (b : ℕ) (s t : Bytes) {r : Bytes} → behind_last b t ≡ some r → behind_last b (s ++ t) ≡ some r
unfolding behind_last
behind_last-append b [] t h = h
behind_last-append b (c ∷ s) t h = rw (behind_last-append b s t h) refl

pub behind_last-Lacks : (b : ℕ) (s : Bytes) → Lacks b s → behind_last b s ≡ none
unfolding behind_last
behind_last-Lacks b [] h = refl
behind_last-Lacks b (c ∷ s) (hc, h) = rw (behind_last-Lacks b s h) (ground arith)

-- `strings.Trim` with one byte as its cutset, at the front and at the end.
trim_front : ℕ → Bytes → Bytes
trim_front b [] = []
trim_front b (c ∷ s) = let rest = trim_front b s in if c == b then rest else c ∷ s

end_of : ℕ → ℕ → Bytes → Bytes
end_of b c [] = if c == b then [] else c ∷ []
end_of b c (d ∷ s) = c ∷ d ∷ s

trim_end : ℕ → Bytes → Bytes
trim_end b [] = []
trim_end b (c ∷ s) = end_of b c (trim_end b s)

unfoldable pub trim_byte : ℕ → Bytes → Bytes
unfolding trim_front trim_end end_of
trim_byte b s = trim_end b (trim_front b s)

trim_end-Lacks : (b : ℕ) (s : Bytes) → Lacks b s → trim_end b s ≡ s
unfolding trim_end end_of
trim_end-Lacks b [] h = refl
trim_end-Lacks b (c ∷ []) (hc, h) = ground arith
trim_end-Lacks b (c ∷ d ∷ s) (hc, h) = rw (trim_end-Lacks b (d ∷ s) h) refl

end_of-filled : (b c : ℕ) (s : Bytes) → s ≢ [] → end_of b c s ≡ c ∷ s
unfolding end_of
end_of-filled b c [] h = absurd (h refl)
end_of-filled b c (d ∷ s) h = refl

-- A text that is not empty and does not end with such a byte.
pub IsTrimmed : ℕ → Bytes → Type 0
IsTrimmed b t = (t ≢ []) × (trim_end b t ≡ t)

pub Lacks-IsTrimmed : (b : ℕ) (t : Bytes) → t ≢ [] → Lacks b t → IsTrimmed b t
unfolding IsTrimmed
Lacks-IsTrimmed b t n h = (n, trim_end-Lacks b t h)

pub append-IsTrimmed : (b : ℕ) (s t : Bytes) → IsTrimmed b t → IsTrimmed b (s ++ t)
unfolding IsTrimmed trim_end
append-IsTrimmed b [] t h = h
append-IsTrimmed b (c ∷ s) t h =
    let (n, e) = append-IsTrimmed b s t h in
    (λ p. cc, ap (end_of b c) e ∙ end_of-filled b c (s ++ t) n)

-- Such a byte in front of a text that has none at its ends is cut off, and nothing else.
pub trim_byte-cons :
    (b c : ℕ) (s : Bytes) → c ≢ b → IsTrimmed b (c ∷ s) → trim_byte b (b ∷ c ∷ s) ≡ c ∷ s
unfolding trim_byte IsTrimmed
trim_byte-cons b c s hc h = ap (trim_end b) (front b c s hc) ∙ h.1
  where
    front : (b c : ℕ) (s : Bytes) → c ≢ b → trim_front b (b ∷ c ∷ s) ≡ c ∷ s
    front b c s hc = unfold trim_front in ground arith
