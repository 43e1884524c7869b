-- ===== src/Types/Ports.antt =====
-- types.go, `PortRange`: `ParsePortRange` and the method `String`.
pub mod Laws
pub mod RoundTrip
use hrobot_go.Base.{
  ℕ, zero, suc, ◌≡◌, refl, ◌%◌, ◌^◌, Bool, List, [], ◌∷◌, ◌++◌, Bytes, codes, ltb, ◌==◌,
  if◌then◌else◌, contains_byte, cut, split, trim_space, parse_uint, Num, value, err_syntax,
  err_range, max_u16, itoa,
}
use hrobot_go.Errors.{Result, ok, fail, ◌>>=◌, ◌>>◌, other}

pub record PortRange : Type 0 where
  pub start : ℕ
  pub end : ℕ

-- `if err != nil { return nil, fmt.Errorf(...) }` behind a call of `ParseUint`.
or_error : Bytes → Num ℕ → Result ℕ
or_error message (value n) = ok n
or_error message err_syntax = fail (other message)
or_error message err_range = fail (other message)

-- `uint16(n)`.
abbrev to_u16 : ℕ → ℕ
to_u16 n = n % 65536

range_of : Bytes → Bytes → Result (List PortRange)
range_of first second = do
  start ← or_error (codes "invalid port start: " ++ first) (parse_uint max_u16 first)
  end ← or_error (codes "invalid port end: " ++ second) (parse_uint max_u16 second)
  if ltb end start
      then fail (
          other (
            codes "inverted port range: "
            ++ (first ++ (codes "-" ++ (second ++ codes " (start > end)")))))
      else ok (record { start = to_u16 start; end = to_u16 end } ∷ [])

single_of : Bytes → Result (List PortRange)
single_of s = do
  port ← or_error (codes "invalid port: " ++ s) (parse_uint max_u16 s)
  ok (record { start = to_u16 port; end = to_u16 port } ∷ [])

-- The part of `ParsePortRange` behind the test for a comma.
pub no_comma : Bytes → Result (List PortRange)
no_comma s = if contains_byte b'-' s then range_of (cut b'-' s).0 (cut b'-' s).1 else single_of s

-- The loop over the parts, where `parse` is the recursive call.
pub parse_each : (Bytes → Result (List PortRange)) → List Bytes → Result (List PortRange)
parse_each parse [] = ok []
parse_each parse (part ∷ parts) = do
  rs ← parse (trim_space part)
  ranges ← parse_each parse parts
  ok (rs ++ ranges)

-- The recursion with fuel. `out_of_fuel` marks that it ran out.
abbrev pub out_of_fuel : Bytes
out_of_fuel = codes "out of fuel"

parse_fuel : ℕ → Bytes → Result (List PortRange)
parse_fuel zero s = fail (other out_of_fuel)
parse_fuel (suc fuel) [] = ok []
parse_fuel (suc fuel) (c ∷ s) =
    let several = parse_each (parse_fuel fuel) (split b',' (c ∷ s)) in
    if contains_byte b',' (c ∷ s) then several else no_comma (c ∷ s)

-- A part of a text with commas has none, so that two levels of calls are made at most.
unfoldable pub parse_port_range : Bytes → Result (List PortRange)
unfolding parse_fuel parse_each no_comma single_of range_of or_error parse_uint cut split
    contains_byte trim_space
parse_port_range s = parse_fuel 2 s

-- The method `String`.
unfoldable pub to_text : PortRange → Bytes
unfolding itoa
to_text p = if p.start == p.end then itoa p.start else itoa p.start ++ (codes "-" ++ itoa p.end)

parse_list :
    parse_port_range (codes "80, 443-445")
    ≡ ok (record { start = 80; end = 80 } ∷ record { start = 443; end = 445 } ∷ [])
unfolding parse_port_range
parse_list = refl
