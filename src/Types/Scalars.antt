-- ===== src/Types/Scalars.antt =====
-- types.go: what its types use of `encoding/json` and of floating point, as parameters.
use hrobot_go.Base.{
  ℕ, ◌≡◌, ◌<◌, ◌≤◌, ◌*◌, ◌^◌, Bool, Bytes, List, Option, some, leb, itoa, max_u64, codes, ◌≢◌,
}
use hrobot_go.Errors.{Result, ok}

-- `Unmarshal` into a string, a uint64, a `json.Number` and a slice of strings, and `Marshal` of a
-- string and of a uint64.
pub record ScalarJson : Type 0 where
  pub unmarshal_string : Bytes → Result Bytes
  pub unmarshal_u64 : Bytes → Result ℕ
  pub unmarshal_number : Bytes → Result Bytes
  pub unmarshal_strings : Bytes → Result (List Bytes)
  pub marshal_string : Bytes → Result Bytes
  pub marshal_u64 : ℕ → Result Bytes

-- A string that was decoded is valid UTF-8: it is printed in quotes and decoded to itself. A uint64
-- is printed in decimal, which is no string.
pub record IsScalarJson (J : ScalarJson) : Type 0 where
  pub string_again :
      (d s t : Bytes)
      → J.unmarshal_string d ≡ ok s
      → J.marshal_string s ≡ ok t
      → J.unmarshal_string t ≡ ok s
  pub quoted : (s t : Bytes) → J.marshal_string s ≡ ok t → t ≢ codes "null"
  pub u64_text : (n : ℕ) (t : Bytes) → J.marshal_u64 n ≡ ok t → t ≡ itoa n
  pub u64_again : (n : ℕ) → n ≤ max_u64 → J.unmarshal_u64 (itoa n) ≡ ok n
  pub u64_bounded : (d : Bytes) (n : ℕ) → J.unmarshal_u64 d ≡ ok n → n ≤ max_u64
  pub number_no_string : (n : ℕ) (s : Bytes) → J.unmarshal_string (itoa n) ≢ ok s

-- `float64`, as far as the source uses it.
pub record Float : Type 1 where
  pub F : Type 0
  pub nought : F
  -- The nearest value to a number.
  pub of_nat : ℕ → F
  -- `strconv.ParseFloat(s, 64)`, none for an error.
  pub parse_float : Bytes → Option F
  pub mul : F → F → F
  pub div : F → F → F
  pub le : F → F → Bool
  -- `uint64(x)`.
  pub to_u64 : F → ℕ
  -- `%.1f` and `%.4f`.
  pub fixed1 : F → Bytes
  pub fixed4 : F → Bytes

-- The integers below 2^53, and those times a power of 1024, are exact.
pub record IsFloat (D : Float) : Type 0 where
  pub parse-itoa : (n : ℕ) → n < 2 ^ 53 → D.parse_float (itoa n) ≡ some (D.of_nat n)
  pub mul_exact :
      (n e : ℕ) → n < 2 ^ 53 → D.mul (D.of_nat n) (D.of_nat (1024 ^ e)) ≡ D.of_nat (n * 1024 ^ e)
  pub le_exact :
      (n e : ℕ)
      → n < 2 ^ 53
      → D.le (D.of_nat max_u64) (D.of_nat (n * 1024 ^ e)) ≡ leb (2 ^ 64) (n * 1024 ^ e)
  pub to_u64_exact :
      (n e : ℕ)
      → n < 2 ^ 53
      → n * 1024 ^ e < 2 ^ 64
      → D.to_u64 (D.of_nat (n * 1024 ^ e)) ≡ n * 1024 ^ e
