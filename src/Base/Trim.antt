-- ===== src/Base/Trim.antt =====
-- `strings.TrimSpace`: the white space of Unicode, in UTF-8, is cut off at both ends.
use hrobot_go.Base.Tests.{◌==◌, leb, if◌then◌else◌}
use hrobot_go.Base.Lists.{All}
use hrobot_go.Base.Text.{Bytes}
use Prim.Native.Nat.{ℕ, ◌≤◌}
use mathlib.Core.Path.{◌≡◌, refl, ◌∙◌}
use mathlib.Core.Bool.{Bool, ◌&&◌, ◌||◌}
use mathlib.Core.List.{[], ◌∷◌, ◌++◌, append-nil}
use native.Mathlib.Omega.{arith}

-- The white space characters of one, two and three bytes.
is_space1 : ℕ → Bool
is_space1 a = (leb 9 a && leb a 13) || a == 32

is_space2 : ℕ → ℕ → Bool
is_space2 a b = a == 0xc2 && (b == 0x85 || b == 0xa0)

is_space3 : ℕ → ℕ → ℕ → Bool
is_space3 a b c =
    (a == 0xe1 && b == 0x9a && c == 0x80)
    || (a == 0xe2
        && b == 0x80
        && ((leb 0x80 c && leb c 0x8a) || c == 0xa8 || c == 0xa9 || c == 0xaf))
    || (a == 0xe2 && b == 0x81 && c == 0x9f)
    || (a == 0xe3 && b == 0x80 && c == 0x80)

trim_left : Bytes → Bytes
trim_left [] = []
trim_left (a ∷ []) = if is_space1 a then [] else a ∷ []
trim_left (a ∷ b ∷ []) =
    let one = trim_left (b ∷ []) in
    if is_space1 a then one else if is_space2 a b then [] else a ∷ b ∷ []
trim_left (a ∷ b ∷ c ∷ s) =
    let one = trim_left (b ∷ c ∷ s) in
    let two = trim_left (c ∷ s) in
    let three = trim_left s in
    if is_space1 a
    then one
    else if is_space2 a b
    then two
    else if is_space3 a b c
    then three
    else a ∷ b ∷ c ∷ s

-- The same at the end, over the text read backwards.
trim_back : Bytes → Bytes
trim_back [] = []
trim_back (a ∷ []) = if is_space1 a then [] else a ∷ []
trim_back (a ∷ b ∷ []) =
    let one = trim_back (b ∷ []) in
    if is_space1 a then one else if is_space2 b a then [] else a ∷ b ∷ []
trim_back (a ∷ b ∷ c ∷ s) =
    let one = trim_back (b ∷ c ∷ s) in
    let two = trim_back (c ∷ s) in
    let three = trim_back s in
    if is_space1 a
    then one
    else if is_space2 b a
    then two
    else if is_space3 c b a
    then three
    else a ∷ b ∷ c ∷ s

backwards : Bytes → Bytes → Bytes
backwards [] out = out
backwards (c ∷ s) out = backwards s (c ∷ out)

unfoldable pub trim_space : Bytes → Bytes
unfolding trim_left trim_back backwards is_space1 is_space2 is_space3
trim_space s = backwards (trim_back (backwards (trim_left s) [])) []

module _ (P : ℕ → Type 0) where
  trim_left-All : (s : Bytes) → All P s → All P (trim_left s)
  unfolding trim_left
  trim_left-All [] h = tt
  trim_left-All (a ∷ []) h = ground arith
  trim_left-All (a ∷ b ∷ []) h = ground (arith, trim_left-All (b ∷ []) h.1)
  trim_left-All (a ∷ b ∷ c ∷ s) h =
      ground
        (arith, trim_left-All (b ∷ c ∷ s) h.1, trim_left-All (c ∷ s) h.1.1, trim_left-All s h.1.1.1)

  trim_back-All : (s : Bytes) → All P s → All P (trim_back s)
  unfolding trim_back
  trim_back-All [] h = tt
  trim_back-All (a ∷ []) h = ground arith
  trim_back-All (a ∷ b ∷ []) h = ground (arith, trim_back-All (b ∷ []) h.1)
  trim_back-All (a ∷ b ∷ c ∷ s) h =
      ground
        (arith, trim_back-All (b ∷ c ∷ s) h.1, trim_back-All (c ∷ s) h.1.1, trim_back-All s h.1.1.1)

  backwards-All : (s out : Bytes) → All P s → All P out → All P (backwards s out)
  unfolding backwards
  backwards-All [] out h k = k
  backwards-All (c ∷ s) out (hc, hs) k = backwards-All s (c ∷ out) hs (hc, k)

  -- Trimming only takes bytes away.
  pub trim_space-All : (s : Bytes) → All P s → All P (trim_space s)
  unfolding trim_space
  trim_space-All s h =
      backwards-All _ [] (trim_back-All _ (backwards-All _ [] (trim_left-All s h) tt)) tt

-- A printable ASCII character that is no space.
abbrev pub IsGraphic : ℕ → Type 0
IsGraphic c = (33 ≤ c) × (c ≤ 126)

trim_left-IsGraphic : (s : Bytes) → All IsGraphic s → trim_left s ≡ s
unfolding trim_left is_space1 is_space2 is_space3
trim_left-IsGraphic [] h = refl
trim_left-IsGraphic (a ∷ []) h = ground arith
trim_left-IsGraphic (a ∷ b ∷ []) h = ground arith
trim_left-IsGraphic (a ∷ b ∷ c ∷ s) h = ground arith

trim_back-IsGraphic : (s : Bytes) → All IsGraphic s → trim_back s ≡ s
unfolding trim_back is_space1 is_space2 is_space3
trim_back-IsGraphic [] h = refl
trim_back-IsGraphic (a ∷ []) h = ground arith
trim_back-IsGraphic (a ∷ b ∷ []) h = ground arith
trim_back-IsGraphic (a ∷ b ∷ c ∷ s) h = ground arith

backwards-backwards :
    (s out rest : Bytes) → backwards (backwards s out) rest ≡ backwards out (s ++ rest)
unfolding backwards
backwards-backwards [] out rest = refl
backwards-backwards (c ∷ s) out rest = backwards-backwards s (c ∷ out) rest

pub trim_space-IsGraphic : (s : Bytes) → All IsGraphic s → trim_space s ≡ s
unfolding trim_space
trim_space-IsGraphic s h = rw (trim_left-IsGraphic s h) (
    rw (trim_back-IsGraphic (backwards s []) (backwards-All IsGraphic s [] h tt))
      (ends (backwards-backwards s [] [])))
  where
    ends :
        backwards (backwards s []) [] ≡ backwards [] (s ++ []) → backwards (backwards s []) [] ≡ s
    ends p = p ∙ (unfold backwards in append-nil s)
