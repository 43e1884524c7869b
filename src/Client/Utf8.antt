-- ===== src/Client/Utf8.antt =====
-- `strings.ToValidUTF8` of the Go library, with U+FFFD for each run of invalid bytes.
use hrobot_go.Base.{
  ℕ, zero, suc, ◌*◌, ◌≤◌, ◌≡◌, refl, Bool, true, false, ◌&&◌, [], ◌∷◌, ◌++◌, Bytes, leb, ltb, ◌==◌,
  if◌then◌else◌, arith, length, length-append,
}

between : ℕ → ℕ → ℕ → Bool
between low high c = leb low c && leb c high

cont : ℕ → Bool
cont c = between 128 191 c

-- The bounds of the second byte after the first.
second_low : ℕ → ℕ
second_low c = if c == 224 then 160 else if c == 240 then 144 else 128

second_high : ℕ → ℕ
second_high c = if c == 237 then 159 else if c == 244 then 143 else 191

-- The number of bytes of the valid rune that the text starts with, or 0.
unfoldable pub rune_width : Bytes → ℕ
unfolding between cont second_low second_high
rune_width [] = 0
rune_width (a ∷ []) = if ltb a 128 then 1 else 0
rune_width (a ∷ b ∷ []) = if ltb a 128 then 1 else if between 194 223 a && cont b then 2 else 0
rune_width (a ∷ b ∷ c ∷ []) =
    if ltb a 128
    then 1
    else if between 194 223 a && cont b
    then 2
    else if between 224 239 a && between (second_low a) (second_high a) b && cont c
    then 3
    else 0
rune_width (a ∷ b ∷ c ∷ d ∷ s) =
    if ltb a 128
    then 1
    else if between 194 223 a && cont b
    then 2
    else if between 224 239 a && between (second_low a) (second_high a) b && cont c
    then 3
    else if between 240 244 a && between (second_low a) (second_high a) b && cont c && cont d
    then 4
    else 0

abbrev pub replacement : Bytes
replacement = 239 ∷ 191 ∷ 189 ∷ []

-- One byte: what is written, how many bytes of its rune are still to come, and whether the byte is
-- in a run of invalid ones, from the same of the byte before and the width that starts here.
abbrev pub byte_step : ℕ → Bool → ℕ → ℕ → Bytes × ℕ × Bool
byte_step (suc left) bad width c = (c ∷ [], left, false)
byte_step zero bad (suc more) c = (c ∷ [], more, false)
byte_step zero true zero c = ([], 0, true)
byte_step zero false zero c = (replacement, 0, true)

to_valid_from : ℕ → Bool → Bytes → Bytes
to_valid_from left bad [] = []
to_valid_from left bad (c ∷ s) =
    let (out, left', bad') = byte_step left bad (rune_width (c ∷ s)) c in
    out ++ to_valid_from left' bad' s

unfoldable pub to_valid_utf8 : Bytes → Bytes
unfolding to_valid_from rune_width
to_valid_utf8 s = to_valid_from 0 false s

byte_step-length : (left : ℕ) (bad : Bool) (width c : ℕ) → length (byte_step left bad width c).0 ≤ 3
byte_step-length (suc left) bad width c = omega arith
byte_step-length zero bad (suc more) c = omega arith
byte_step-length zero true zero c = omega arith
byte_step-length zero false zero c = omega arith

to_valid_from-length :
    (left : ℕ) (bad : Bool) (s : Bytes) → length (to_valid_from left bad s) ≤ 3 * length s
unfolding to_valid_from
to_valid_from-length left bad [] = omega arith
to_valid_from-length left bad (c ∷ s) =
    let step = byte_step left bad (rune_width (c ∷ s)) c in
    omega (
      arith,
      length-append step.0 (to_valid_from step.1 step.2 s),
      byte_step-length left bad (rune_width (c ∷ s)) c,
      to_valid_from-length step.1 step.2 s,
    )

-- The valid text is at most three times as long.
pub to_valid_utf8-length : (s : Bytes) → length (to_valid_utf8 s) ≤ 3 * length s
unfolding to_valid_utf8
to_valid_utf8-length s = to_valid_from-length 0 false s

valid_text :
    to_valid_utf8 (97 ∷ 255 ∷ 254 ∷ 195 ∷ 164 ∷ 195 ∷ [])
    ≡ 97 ∷ (replacement ++ 195 ∷ 164 ∷ replacement)
unfolding to_valid_utf8
valid_text = refl
