-- ===== src/Types/TrafficSize.antt =====
-- types.go, `TrafficSize`: the pattern of its texts, decoding, encoding and printing.
pub mod Match
pub mod Text
pub mod RoundTrip
pub mod Units
use hrobot_go.Base.{
  span, ℕ, zero, suc, ◌≡◌, refl, ◌+◌, ◌*◌, ◌/◌, ◌%◌, ◌^◌, Bool, true, false, ◌&&◌, ◌||◌, List, [],
  ◌∷◌, ◌++◌, Bytes, codes, bytes_eq, ltb, leb, ◌==◌, if◌then◌else◌, Option, none, some, Num, value,
  err_syntax, err_range, parse_uint, max_u64, itoa, get_elem?,
}
use hrobot_go.Errors.{GoError, nil, Result, ok, fail}
use hrobot_go.Types.Scalars.{ScalarJson, Float}

pub record TrafficSize : Type 0 where
  pub unlimited : Bool
  pub bytes : ℕ
  pub raw : Bytes

abbrev pub no_size : TrafficSize
no_size = record { unlimited = false; bytes = 0; raw = [] }

-- The pattern, from left to right. No choice of a shorter part lets it match where the longest fails.
-- `\s`.
abbrev pub is_blank : ℕ → Bool
is_blank c = c == 9 || c == 10 || c == 12 || c == 13 || c == 32

pub skip_blanks : Bytes → Bytes
skip_blanks [] = []
skip_blanks (c ∷ s) = let rest = skip_blanks s in if is_blank c then rest else c ∷ s

abbrev pub is_digit : ℕ → Bool
is_digit c = leb b'0' c && leb c b'9'

-- `(?:\.[0-9]+)?`, with the digits in front of it and what stands behind the point.
fraction_of : Bytes → Bytes → Bytes × Bytes → Bytes × Bytes
fraction_of digits s ([], rest) = (digits, s)
fraction_of digits s (e ∷ es, rest) = (digits ++ (b'.' ∷ e ∷ es), rest)

fraction : Bytes → Bytes → Bytes × Bytes
fraction digits [] = (digits, [])
fraction digits (c ∷ s) =
    if c == b'.' then fraction_of digits (c ∷ s) (span is_digit s) else (digits, c ∷ s)

number_of : Bytes × Bytes → Option (Bytes × Bytes)
number_of ([], rest) = none
number_of (d ∷ ds, rest) = some (fraction (d ∷ ds) rest)

-- A capital letter, or its small letter.
abbrev pub is_letter : ℕ → ℕ → Bool
is_letter capital c = c == capital || c == capital + 32

behind_b : Bytes → Bytes → Option (Bytes × Bytes)
behind_b u [] = none
behind_b u (c ∷ s) = if is_letter b'B' c then some (u ++ b'B' ∷ [], s) else none

-- The Kelvin sign, of three bytes, is a small `k` without regard to case, and is its own capital.
kelvin : Bytes → Option (Bytes × Bytes)
kelvin (a ∷ b ∷ c ∷ s) =
    if a == 0xe2 && b == 0x84 && c == 0xaa then behind_b (a ∷ b ∷ c ∷ []) s else none
kelvin _ = none

-- `(B|KB|MB|GB|TB)` without regard to case, put into capitals.
read_unit : Bytes → Option (Bytes × Bytes)
read_unit [] = none
read_unit (c ∷ s) =
    if is_letter b'B' c
    then some (b'B' ∷ [], s)
    else if is_letter b'K' c
    then behind_b (b'K' ∷ []) s
    else if is_letter b'M' c
    then behind_b (b'M' ∷ []) s
    else if is_letter b'G' c
    then behind_b (b'G' ∷ []) s
    else if is_letter b'T' c
    then behind_b (b'T' ∷ []) s
    else kelvin (c ∷ s)

at_end : Bytes × Bytes → Bytes → Option (Bytes × Bytes)
at_end parts [] = some parts
at_end parts (c ∷ s) = none

unit_of : Bytes → Option (Bytes × Bytes) → Option (Bytes × Bytes)
unit_of number none = none
unit_of number (some (unit, rest)) = at_end (number, unit) (skip_blanks rest)

unit_behind : Option (Bytes × Bytes) → Option (Bytes × Bytes)
unit_behind none = none
unit_behind (some (number, rest)) = unit_of number (read_unit (skip_blanks rest))

-- `trafficSizePattern.FindStringSubmatch`: the number and the unit in capitals.
unfoldable pub match_size : Bytes → Option (Bytes × Bytes)
unfolding unit_behind unit_of at_end read_unit kelvin behind_b number_of fraction fraction_of span
    skip_blanks
match_size s = unit_behind (number_of (span is_digit (skip_blanks s)))

pub multiplier : Bytes → ℕ
multiplier unit =
    if bytes_eq unit (codes "B")
    then 1
    else if bytes_eq unit (codes "KB")
    then 1024
    else if bytes_eq unit (codes "MB")
    then 1024 * 1024
    else if bytes_eq unit (codes "GB")
    then 1024 * 1024 * 1024
    else if bytes_eq unit (codes "TB")
    then 1024 * 1024 * 1024 * 1024
    else 1

-- `bytes, err := strconv.ParseUint(str, 10, 64)`, and no bytes for an error.
or_zero : Num ℕ → ℕ
or_zero (value n) = n
or_zero err_syntax = 0
or_zero err_range = 0

module _ (J : ScalarJson) (D : Float) where
  unfoldable pub saturated : D.F → ℕ
  saturated bytes = if D.le (D.of_nat max_u64) bytes then max_u64 else D.to_u64 bytes

  by_number : Bytes → Bytes → Option D.F → ℕ
  by_number str unit none = or_zero (parse_uint max_u64 str)
  by_number str unit (some num) = saturated (D.mul num (D.of_nat (multiplier unit)))

  by_pattern : Bytes → Option (Bytes × Bytes) → ℕ
  by_pattern str none = or_zero (parse_uint max_u64 str)
  by_pattern str (some (number, unit)) = by_number str unit (D.parse_float number)

  of_string : Bytes → TrafficSize
  of_string str =
      if bytes_eq str (codes "unlimited")
      then record { unlimited = true; bytes = 0; raw = str }
      else record { unlimited = false; bytes = by_pattern str (match_size str); raw = str }

  of_u64 : Result ℕ → GoError × TrafficSize
  of_u64 (ok n) = (nil, record { unlimited = false; bytes = n; raw = [] })
  of_u64 (fail e) = (e, no_size)

  of_json : Bytes → Result Bytes → GoError × TrafficSize
  of_json text (ok str) = (nil, of_string str)
  of_json text (fail e) = of_u64 (J.unmarshal_u64 text)

  -- `UnmarshalJSON`: the error and the receiver, which is reset first.
  unfoldable pub unmarshal : TrafficSize → Bytes → GoError × TrafficSize
  unfolding of_json of_u64 of_string by_pattern by_number saturated multiplier or_zero match_size
      bytes_eq parse_uint
  unmarshal t text =
      if bytes_eq text (codes "null")
      then (nil, no_size)
      else of_json text (J.unmarshal_string text)

  marshal_size : TrafficSize → Bytes → Result Bytes
  marshal_size t (c ∷ s) = J.marshal_string (c ∷ s)
  marshal_size t [] =
      if t.unlimited then J.marshal_string (codes "unlimited") else J.marshal_u64 t.bytes

  -- `MarshalJSON`.
  unfoldable pub marshal : TrafficSize → Result Bytes
  unfolding marshal_size
  marshal t = marshal_size t t.raw

-- The loop of `formatBytes`: `div` wraps as a uint64 does.
pub scale_loop : ℕ → ℕ → ℕ → ℕ → ℕ × ℕ
scale_loop zero n div exp = (div, exp)
scale_loop (suc fuel) n div exp =
    let more = scale_loop fuel (n / 1024) (div * 1024 % 2 ^ 64) (exp + 1) in
    if ltb n 1024 then (div, exp) else more

module _ (D : Float) where
  -- `fmt.Sprintf("%.1f %cB", x, letter)`.
  with_letter : D.F → ℕ → Bytes
  with_letter x letter = D.fixed1 x ++ (b' ' ∷ letter ∷ b'B' ∷ [])

  lettered : D.F → Option ℕ → Option Bytes
  lettered x none = none
  lettered x (some letter) = some (with_letter x letter)

  scaled : ℕ → ℕ × ℕ → Option Bytes
  scaled bytes (div, exp) =
      lettered (D.div (D.of_nat bytes) (D.of_nat div)) (get_elem? (codes "KMGTPE") exp)

  -- none where the index into "KMGTPE" is out of range, which is a panic.
  unfoldable pub format_bytes : ℕ → Option Bytes
  unfolding scale_loop scaled lettered with_letter itoa
  format_bytes bytes =
      if ltb bytes 1024
      then some (itoa bytes ++ codes " B")
      else scaled bytes (scale_loop 6 (bytes / 1024) 1024 0)

  text_of : TrafficSize → Bytes → Option Bytes
  text_of t (c ∷ s) = some (c ∷ s)
  text_of t [] = if t.unlimited then some (codes "unlimited") else format_bytes t.bytes

  -- The method `String`.
  unfoldable pub to_text : TrafficSize → Option Bytes
  unfolding text_of format_bytes
  to_text t = text_of t t.raw
