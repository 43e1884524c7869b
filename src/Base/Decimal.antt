-- ===== src/Base/Decimal.antt =====
-- `strconv`: decimal printing and the base 10 parsers, with the two reasons for which a parse fails.
use Prim.Native.Nat.{ℕ, zero, suc, ◌+◌, ◌-◌, ◌*◌, ◌/◌, ◌%◌, ◌≤◌, ◌<◌}
use mathlib.Core.Path.{◌≡◌, refl}
use mathlib.Core.Logic.{◌≢◌, ◌⊎◌, inl, inr}
use mathlib.Core.Bool.{Bool, true, false, ◌||◌}
use mathlib.Core.List.{[], ◌∷◌}
use native.Mathlib.Omega.{arith}
use hrobot_go.Base.Tests.{ltb, ◌==◌, if◌then◌else◌}
use hrobot_go.Base.Lists.{All}
use hrobot_go.Base.Text.{Bytes}
use hrobot_go.Base.Int.{ℤ, pos, negsuc}

-- One round for each digit, from the last to the first.
digit_loop : ℕ → ℕ → Bytes → Bytes
digit_loop zero n out = out
digit_loop (suc fuel) n out =
    let now = (b'0' + n % 10) ∷ out in
    let more = digit_loop fuel (n / 10) now in if ltb n 10 then now else more

-- `n` has at most `n + 1` digits.
unfoldable pub itoa : ℕ → Bytes
unfolding digit_loop
itoa n = digit_loop (suc n) n []

-- `strconv.Itoa`, and `%d`.
unfoldable pub itoa_int : ℤ → Bytes
unfolding itoa
itoa_int (pos n) = itoa n
itoa_int (negsuc n) = b'-' ∷ itoa (suc n)

-- The result of a parser: a value, or `strconv.ErrSyntax`, or `strconv.ErrRange`.
pub data Num {ℓ} (A : Type ℓ) : Type ℓ where
  value : A → Num A
  err_syntax : Num A
  err_range : Num A

-- The loop of `ParseUint` up to a largest value. The range is tested at each digit.
read_digits : ℕ → Bytes → ℕ → Num ℕ
read_digits limit [] n = value n
read_digits limit (c ∷ s) n =
    let n' = n * 10 + (c - b'0') in
    let rest = read_digits limit s n' in
    if ltb c b'0' || ltb b'9' c then err_syntax else if ltb limit n' then err_range else rest

-- `strconv.ParseUint(s, 10, bits)`, where `limit` is the largest value of that many bits.
unfoldable pub parse_uint : ℕ → Bytes → Num ℕ
unfolding read_digits
parse_uint limit [] = err_syntax
parse_uint limit (c ∷ s) = read_digits limit (c ∷ s) 0

abbrev pub max_u16 : ℕ
max_u16 = 65535

abbrev pub max_u64 : ℕ
max_u64 = 18446744073709551615

abbrev pub max_int : ℕ
max_int = 9223372036854775807

signed : Bool → Num ℕ → Num ℤ
signed negative err_syntax = err_syntax
signed negative err_range = err_range
signed false (value n) = if ltb max_int n then err_range else value (pos n)
signed true (value zero) = value (pos 0)
signed true (value (suc n)) = if ltb max_int n then err_range else value (negsuc n)

-- `strconv.ParseInt(s, 10, 64)`, and `strconv.Atoi` where an int has 64 bits.
unfoldable pub atoi : Bytes → Num ℤ
unfolding parse_uint signed
atoi [] = err_syntax
atoi (c ∷ s) =
    if c == b'-'
    then signed true (parse_uint max_u64 s)
    else if c == b'+'
    then signed false (parse_uint max_u64 s)
    else signed false (parse_uint max_u64 (c ∷ s))

read_digits-digit_loop :
    (limit fuel n : ℕ) (out : Bytes)
    → n < fuel
    → n ≤ limit
    → read_digits limit (digit_loop fuel n out) 0 ≡ read_digits limit out n
unfolding digit_loop read_digits
read_digits-digit_loop limit zero n out h fits = elim h [ ]
read_digits-digit_loop limit (suc fuel) n out h fits =
    ground (arith, read_digits-digit_loop limit fuel (n / 10) ((b'0' + n % 10) ∷ out))

digit_loop-ne-nil : (fuel n : ℕ) (out : Bytes) → out ≢ [] → digit_loop fuel n out ≢ []
unfolding digit_loop
digit_loop-ne-nil zero n out h = h
digit_loop-ne-nil (suc fuel) n out h =
    ground (arith, digit_loop-ne-nil fuel (n / 10) ((b'0' + n % 10) ∷ out))

pub itoa-ne-nil : (n : ℕ) → itoa n ≢ []
unfolding itoa
itoa-ne-nil n = ground (arith, digit_loop-ne-nil n (n / 10) ((b'0' + n % 10) ∷ []))

parse_uint-read_digits :
    (limit : ℕ) (s : Bytes) → s ≢ [] → parse_uint limit s ≡ read_digits limit s 0
unfolding parse_uint
parse_uint-read_digits limit [] h = absurd (h refl)
parse_uint-read_digits limit (c ∷ s) h = refl

-- A number within the range is read back from its print.
pub parse_uint-itoa : (limit n : ℕ) → n ≤ limit → parse_uint limit (itoa n) ≡ value n
parse_uint-itoa limit n h = rw (parse_uint-read_digits limit (itoa n) (itoa-ne-nil n)) (read n h)
  where
    read : (n : ℕ) → n ≤ limit → read_digits limit (itoa n) 0 ≡ value n
    read n h = unfold itoa read_digits in read_digits-digit_loop limit (suc n) n [] (omega arith) h

abbrev pub IsDigit : ℕ → Type 0
IsDigit c = (b'0' ≤ c) × (c ≤ b'9')

digit_loop-IsDigit :
    (fuel n : ℕ) (out : Bytes) → All IsDigit out → All IsDigit (digit_loop fuel n out)
unfolding digit_loop
digit_loop-IsDigit zero n out h = h
digit_loop-IsDigit (suc fuel) n out h =
    ground (arith, digit_loop-IsDigit fuel (n / 10) ((b'0' + n % 10) ∷ out))

pub itoa-IsDigit : (n : ℕ) → All IsDigit (itoa n)
unfolding itoa
itoa-IsDigit n = digit_loop-IsDigit (suc n) n [] tt

read_digits_bounded :
    (limit : ℕ) (s : Bytes) (n : ℕ) {m : ℕ}
    → n ≤ limit
    → read_digits limit s n ≡ value m
    → m ≤ limit
unfolding read_digits
read_digits_bounded limit [] n h e = ground arith
read_digits_bounded limit (c ∷ s) n {m} h e =
    ground (arith, read_digits_bounded limit s (n * 10 + (c - b'0')) {m = m})

-- What a parser accepts is within its range.
pub parse_uint_bounded : (limit : ℕ) (s : Bytes) {n : ℕ} → parse_uint limit s ≡ value n → n ≤ limit
unfolding parse_uint
parse_uint_bounded limit [] e = ground arith
parse_uint_bounded limit (c ∷ s) e = read_digits_bounded limit (c ∷ s) 0 (omega arith) e

read_digits-digit_loop_above :
    (limit fuel n : ℕ) (out : Bytes)
    → n < fuel
    → limit < n
    → read_digits limit (digit_loop fuel n out) 0 ≡ err_range
unfolding digit_loop read_digits
read_digits-digit_loop_above limit zero n out h above = elim h [ ]
read_digits-digit_loop_above limit (suc fuel) n out h above = ground (
  arith,
  read_digits-digit_loop limit fuel (n / 10) ((b'0' + n % 10) ∷ out),
  read_digits-digit_loop_above limit fuel (n / 10) ((b'0' + n % 10) ∷ out),
)

-- A number above the range is refused as out of range.
pub parse_uint-itoa_above : (limit n : ℕ) → limit < n → parse_uint limit (itoa n) ≡ err_range
parse_uint-itoa_above limit n h =
    rw (parse_uint-read_digits limit (itoa n) (itoa-ne-nil n)) (read n h)
  where
    read : (n : ℕ) → limit < n → read_digits limit (itoa n) 0 ≡ err_range
    read n h = unfold itoa in read_digits-digit_loop_above limit (suc n) n [] (omega arith) h

atoi_digits : (s : Bytes) → s ≢ [] → All IsDigit s → atoi s ≡ signed false (parse_uint max_u64 s)
atoi_digits [] h d = absurd (h refl)
atoi_digits (c ∷ s) h d = step c s d
  where
    step :
        (c : ℕ) (s : Bytes)
        → All IsDigit (c ∷ s)
        → atoi (c ∷ s) ≡ signed false (parse_uint max_u64 (c ∷ s))
    step c s d = unfold atoi in ground arith

-- `Atoi` reads back a number that an int can hold, and reports a range error for a larger one.
pub atoi-itoa : (n : ℕ) → n ≤ max_int → atoi (itoa n) ≡ value (pos n)
unfolding signed
atoi-itoa n h =
    rw
      (
        atoi_digits (itoa n) (itoa-ne-nil n) (itoa-IsDigit n),
        parse_uint-itoa max_u64 n (omega arith),
      )
      (ground arith)

pub atoi-itoa_above : (n : ℕ) → max_int < n → atoi (itoa n) ≡ err_range
unfolding signed
atoi-itoa_above n h = rw (atoi_digits (itoa n) (itoa-ne-nil n) (itoa-IsDigit n)) (go (fits n))
  where
    fits : (n : ℕ) → (n ≤ max_u64) ⊎ (max_u64 < n)
    fits n = omega arith

    go : (n ≤ max_u64) ⊎ (max_u64 < n) → signed false (parse_uint max_u64 (itoa n)) ≡ err_range
    go (inl small) = rw (parse_uint-itoa max_u64 n small) (ground arith)
    go (inr large) = rw (parse_uint-itoa_above max_u64 n large)
