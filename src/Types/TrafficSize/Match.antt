-- ===== src/Types/TrafficSize/Match.antt =====
-- What the pattern of a traffic quota matches: blanks, a decimal number, blanks, a unit, blanks.
use hrobot_go.Base.{
  span-append, Stops, All-weaken, ℕ, ◌≡◌, ◌≢◌, refl, ◌∙◌, ap, sym, ◌^◌, true, false, [], ◌∷◌, ◌++◌,
  append-nil, Bytes, codes, All, IsDigit, itoa, itoa-IsDigit, itoa-ne-nil, none, some, arith, ◌⊎◌,
  inl, inr, bytes_eq,
}
use hrobot_go.Types.TrafficSize.{
  is_blank, skip_blanks, is_digit, is_letter, read_unit, behind_b, unit_behind, unit_of, at_end,
  number_of, fraction, match_size, multiplier,
}

abbrev pub IsBlank : ℕ → Type 0
IsBlank c = is_blank c ≡ true

abbrev pub IsLetter : ℕ → ℕ → Type 0
IsLetter capital c = is_letter capital c ≡ true

-- The spellings of the unit of 1024 ^ e bytes, in capitals or small letters.
abbrev pub Spells : ℕ → Bytes → Type 0
Spells e (b ∷ []) = (e ≡ 0) × IsLetter b'B' b
Spells e (k ∷ b ∷ []) =
    IsLetter b'B' b
    × (((e ≡ 1) × IsLetter b'K' k)
        ⊎ (((e ≡ 2) × IsLetter b'M' k)
            ⊎ (((e ≡ 3) × IsLetter b'G' k) ⊎ ((e ≡ 4) × IsLetter b'T' k))))
Spells e _ = ⊥

-- A text that does not begin with a blank.
abbrev Sharp : Bytes → Type 0
Sharp [] = Unit
Sharp (c ∷ s) = is_blank c ≡ false

skip_blanks-append : (w s : Bytes) → All IsBlank w → Sharp s → skip_blanks (w ++ s) ≡ s
unfolding skip_blanks
skip_blanks-append [] [] h k = refl
skip_blanks-append [] (c ∷ s) h k = rw k refl
skip_blanks-append (b ∷ w) s (hb, h) k = rw hb (skip_blanks-append w s h k)

-- A blank or a letter.
abbrev NoPoint : Bytes → Type 0
NoPoint [] = Unit
NoPoint (c ∷ s) = c ≢ b'.'

fraction-NoPoint : (d s : Bytes) → NoPoint s → fraction d s ≡ (d, s)
unfolding fraction
fraction-NoPoint d [] h = refl
fraction-NoPoint d (c ∷ s) h = ground arith

number_of-filled : (d s : Bytes) → d ≢ [] → NoPoint s → number_of (d, s) ≡ some (d, s)
unfolding number_of
number_of-filled [] s h k = absurd (h refl)
number_of-filled (c ∷ d) s h k = ap some (fraction-NoPoint (c ∷ d) s k)

-- A spelling is read as its unit.
abbrev Reads : ℕ → Bytes → Bytes → Type 0
Reads e t w = (u : Bytes) × (read_unit (t ++ w) ≡ some (u, w)) × (multiplier u ≡ 1024 ^ e)

read_unit-Spells : (e : ℕ) (t w : Bytes) → Spells e t → Reads e t w
unfolding read_unit behind_b multiplier bytes_eq
read_unit-Spells e [] w h = absurd h
read_unit-Spells e (b ∷ []) w (he, hb) = (codes "B", ground arith, rw he refl)
read_unit-Spells e (k ∷ b ∷ []) w (hb, inl (he, hk)) = (codes "KB", ground arith, rw he refl)
read_unit-Spells e (k ∷ b ∷ []) w (hb, inr (inl (he, hk))) = (codes "MB", ground arith, rw he refl)
read_unit-Spells e (k ∷ b ∷ []) w (hb, inr (inr (inl (he, hk)))) =
    (codes "GB", ground arith, rw he refl)
read_unit-Spells e (k ∷ b ∷ []) w (hb, inr (inr (inr (he, hk)))) =
    (codes "TB", ground arith, rw he refl)
read_unit-Spells e (k ∷ b ∷ c ∷ t) w h = absurd h

Sharp-digits : (n : Bytes) (s : Bytes) → n ≢ [] → All IsDigit n → Sharp (n ++ s)
Sharp-digits [] s h d = absurd (h refl)
Sharp-digits (c ∷ n) s h (d, _) = ground arith

Sharp-Spells : (e : ℕ) (t w : Bytes) → Spells e t → Sharp (t ++ w)
Sharp-Spells e [] w h = absurd h
Sharp-Spells e (b ∷ []) w (he, hb) = ground arith
Sharp-Spells e (k ∷ b ∷ []) w h = ground arith
Sharp-Spells e (k ∷ b ∷ c ∷ t) w h = absurd h

-- A unit, or a blank and more.
IsTail : Bytes → Type 0
IsTail s = Stops is_digit s × NoPoint s

IsTail-blanks : (w s : Bytes) → All IsBlank w → IsTail s → IsTail (w ++ s)
unfolding IsTail
IsTail-blanks [] s h k = k
IsTail-blanks (c ∷ w) s h k = (ground arith, ground arith)

IsTail-Spells : (e : ℕ) (t w : Bytes) → Spells e t → IsTail (t ++ w)
unfolding IsTail
IsTail-Spells e [] w h = absurd h
IsTail-Spells e (b ∷ []) w (he, hb) = (ground arith, ground arith)
IsTail-Spells e (k ∷ b ∷ []) w h = (ground arith, ground arith)
IsTail-Spells e (k ∷ b ∷ c ∷ t) w h = absurd h

match_number :
    (w s : Bytes) (n : ℕ)
    → All IsBlank w
    → IsTail s
    → match_size (w ++ (itoa n ++ s)) ≡ unit_behind (some (itoa n, s))
unfolding match_size IsTail
match_number w s n h (hs, hp) =
    rw
      (
        skip_blanks-append w (itoa n ++ s) h
            (Sharp-digits (itoa n) s (itoa-ne-nil n) (itoa-IsDigit n)),
        span-append is_digit (itoa n) s
            (All-weaken _ _ (λ c h. ground arith) (itoa n) (itoa-IsDigit n)) hs,
        number_of-filled (itoa n) s (itoa-ne-nil n) hp,
      )
      refl

unit_behind_lem :
    (e : ℕ) (number w w' t : Bytes)
    → All IsBlank w
    → All IsBlank w'
    → Spells e t
    → (u : Bytes) × (unit_behind (some (number, w ++ (t ++ w'))) ≡ some (number, u))
      × (multiplier u ≡ 1024 ^ e)
unfolding unit_behind unit_of at_end
unit_behind_lem e number w w' t h h' spells =
    let (u, reads, mult) = read_unit-Spells e t w' spells in
    let blanks : skip_blanks w' ≡ [] =
      ap skip_blanks (sym (append-nil w')) ∙ skip_blanks-append w' [] h' tt in
    (
      u,
      rw (skip_blanks-append w (t ++ w') h (Sharp-Spells e t w' spells), reads, blanks) refl,
      mult,
    )

-- A number and a unit with blanks around them match, with the unit's number of bytes.
pub match_size-spelled :
    (e n : ℕ) (w w' w'' t : Bytes)
    → All IsBlank w
    → All IsBlank w'
    → All IsBlank w''
    → Spells e t
    → (u : Bytes) × (match_size (w ++ (itoa n ++ (w' ++ (t ++ w'')))) ≡ some (itoa n, u))
      × (multiplier u ≡ 1024 ^ e)
match_size-spelled e n w w' w'' t h h' h'' spells =
    let (u, matched, mult) = unit_behind_lem e (itoa n) w' w'' t h' h'' spells in
    (
      u,
      match_number w (w' ++ (t ++ w'')) n h
            (IsTail-blanks w' (t ++ w'') h' (IsTail-Spells e t w'' spells))
          ∙ matched,
      mult,
    )

-- A number alone has no unit.
pub match_size-itoa : (n : ℕ) → match_size (itoa n) ≡ none
unfolding unit_behind unit_of skip_blanks read_unit IsTail
match_size-itoa n = ap match_size (sym (append-nil (itoa n))) ∙ match_number [] [] n tt (tt, tt)
