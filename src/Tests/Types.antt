-- ===== src/Tests/Types.antt =====
-- Values of the resource types, with a toy of encoding/json and of floating point.
use hrobot_go.Base.{
  ◌≡◌, ◌≢◌, refl, ap, subst, ℕ, ◌+◌, ◌*◌, ◌/◌, ◌^◌, ◌<◌, ◌⊎◌, List, [], ◌∷◌, ◌++◌, ◌==◌, Bytes,
  codes, Option, none, some, Num, value, err_syntax, err_range, parse_uint, parse_uint-itoa,
  parse_uint_bounded, max_u64, itoa, itoa-IsDigit, All, IsDigit, leb, if◌then◌else◌, arith, pos,
  get_elem?, bytes_eq,
}
use hrobot_go.Errors.{GoError, nil, other, Result, ok, fail}
use hrobot_go.Errors.Laws.{ok-injective}
use hrobot_go.Types.Scalars.{ScalarJson, IsScalarJson, Float}
use hrobot_go.Types.TrafficSize.{no_size, unmarshal, marshal, format_bytes}
use hrobot_go.Types.TrafficSize.RoundTrip.{unmarshal-marshal}
use hrobot_go.Types.FlexibleId
use hrobot_go.Types.StringFloat
use hrobot_go.Types.Reset
use hrobot_go.Types.Reset.{Decoded}
use hrobot_go.Types.BerlinTime
use hrobot_go.Types.BerlinTime.{Zone, date_time}
use hrobot_go.Types.TrafficSize.Units.{Fits, format_bytes_lem}

abbrev no_text : GoError
no_text = other (codes "syntax")

-- Strings without escapes.
but_last : Bytes → Bytes
but_last [] = []
but_last (c ∷ []) = []
but_last (c ∷ d ∷ s) = c ∷ but_last (d ∷ s)

but_last-append : (s : Bytes) (c : ℕ) → but_last (s ++ c ∷ []) ≡ s
unfolding but_last
but_last-append [] c = refl
but_last-append (d ∷ []) c = refl
but_last-append (d ∷ e ∷ s) c = ap (λ t. d ∷ t) (but_last-append (e ∷ s) c)

read_quoted : Bytes → Result Bytes
unfolding but_last
read_quoted [] = fail no_text
read_quoted (c ∷ s) = if c == b'"' then ok (but_last s) else fail no_text

read_listed : Bytes → Result (List Bytes)
unfolding but_last
read_listed [] = fail no_text
read_listed (c ∷ s) = if c == b'[' then ok (but_last s ∷ []) else fail no_text

of_num : Num ℕ → Result ℕ
of_num (value n) = ok n
of_num err_syntax = fail no_text
of_num err_range = fail no_text

of_num_value : (r : Num ℕ) (n : ℕ) → of_num r ≡ ok n → r ≡ value n
unfolding of_num
of_num_value (value m) n h = cc
of_num_value err_syntax n h = cc
of_num_value err_range n h = cc

abbrev test_scalars : ScalarJson
test_scalars = record {
  unmarshal_string = read_quoted;
  unmarshal_u64 = λ text. of_num (parse_uint max_u64 text);
  unmarshal_number = λ text. ok text;
  unmarshal_strings = read_listed;
  marshal_string = λ s. ok (b'"' ∷ (s ++ b'"' ∷ []));
  marshal_u64 = λ n. ok (itoa n);
}

read_digits-no_string : (d : Bytes) (s : Bytes) → All IsDigit d → read_quoted d ≢ ok s
unfolding read_quoted
read_digits-no_string [] s h = λ p. cc
read_digits-no_string (c ∷ d) s (h, _) = ground arith

test_scalars-IsScalarJson : IsScalarJson test_scalars
unfolding read_quoted of_num
test_scalars-IsScalarJson = record {
  string_again = λ d s t h e. subst_text s t e;
  quoted = λ s t e. starts s t e;
  u64_text = λ n t e. cc;
  u64_again = λ n h. ap of_num (parse_uint-itoa max_u64 n h);
  u64_bounded = λ d n e. parse_uint_bounded max_u64 d (of_num_value (parse_uint max_u64 d) n e);
  number_no_string = λ n s. read_digits-no_string (itoa n) s (itoa-IsDigit n);
}
  where
    subst_text : (s t : Bytes) → ok (b'"' ∷ (s ++ b'"' ∷ [])) ≡ ok t → read_quoted t ≡ ok s
    subst_text s t e =
        subst (λ x. read_quoted x ≡ ok s) (ok-injective e) (ap ok (but_last-append s b'"'))

    starts : (s t : Bytes) → ok (b'"' ∷ (s ++ b'"' ∷ [])) ≡ ok t → t ≢ codes "null"
    starts s t e = λ p. cc

-- Numbers in place of floating point.
of_parsed : Num ℕ → Option ℕ
of_parsed (value n) = some n
of_parsed err_syntax = none
of_parsed err_range = none

abbrev test_float : Float
test_float = record {
  F = ℕ;
  nought = 0;
  of_nat = λ n. n;
  parse_float = λ s. of_parsed (parse_uint max_u64 s);
  mul = λ m n. m * n;
  div = λ m n. m / n;
  le = λ m n. leb m n;
  to_u64 = λ n. n;
  fixed1 = itoa;
  fixed4 = itoa;
}

-- The Kelvin sign passes for a K in the pattern, and is no unit.
kelvin_kilobytes :
    (unmarshal test_scalars test_float no_size
      (b'"' ∷ b'5' ∷ 0xe2 ∷ 0x84 ∷ 0xaa ∷ b'B' ∷ b'"' ∷ [])).1.bytes
    ≡ 5
unfolding unmarshal read_quoted but_last of_parsed
kelvin_kilobytes = refl

unmarshal-marshal_example :
    unmarshal test_scalars test_float no_size (codes "\"unlimited\"")
    ≡ (nil, (unmarshal test_scalars test_float no_size (codes "\"unlimited\"")).1)
unfolding unmarshal marshal read_quoted but_last bytes_eq
unmarshal-marshal_example =
    unmarshal-marshal test_scalars test_float test_scalars-IsScalarJson no_size no_size
      (codes "\"unlimited\"") (codes "\"unlimited\"") refl

format_bytes_lem_example :
    ((1536 < 1024) × (format_bytes test_float 1536 ≡ some (itoa 1536 ++ codes " B")))
    ⊎ ((e : ℕ) × (c : ℕ) × Fits 1536 e
        × (get_elem? (codes "KMGTPE") e ≡ some c)
        × (format_bytes test_float 1536
            ≡ some (itoa (1536 / 1024 ^ (e + 1)) ++ (b' ' ∷ c ∷ codes "B"))))
format_bytes_lem_example = format_bytes_lem test_float 1536 (ground arith)

abbrev no_reset : Reset.Reset
no_reset = record {
  server_ip = record { text = []; size = 0 };
  server_ipv6_net = [];
  server_number = pos 1;
  reset_types = [];
  operating_status = [];
}

-- The text of the type stands for the object.
abbrev test_members : Reset.Reset → Bytes → Decoded
test_members r text = record { failure = nil; receiver = r; raw_type = text }

-- Days alone are read, as their text.
abbrev test_zone : Zone
test_zone = record {
  Time = Bytes;
  no_time = [];
  parse = λ layout str. if bytes_eq layout (codes "2006-01-02") then some str else none;
  format = λ layout t. t;
}
