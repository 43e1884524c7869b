-- ===== src/Types/Ports/Laws.antt =====
-- Bounds of parsed port ranges, and the round trip with `String`.
use hrobot_go.Base.{
  ℕ, zero, suc, ◌≡◌, ◌≤◌, refl, true, false, List, [], ◌∷◌, ◌++◌, arith, Bytes, codes, All, Lacks,
  Num, value, err_syntax, err_range, max_u16, parse_uint, parse_uint_bounded, cut, contains_byte,
  contains_byte-Lacks, split, split-Lacks, trim_space, trim_space-All, Bool-cases, ◌⊎◌, inl, inr,
  subst, All-append, ap, ap₂, if◌then◌else◌, ltb, ◌%◌,
}
use hrobot_go.Errors.Laws.{>>=-eq-ok, ok-injective}
use hrobot_go.Errors.{Result, ok, fail, ◌>>=◌, other}
use hrobot_go.Types.Ports.{
  PortRange, or_error, range_of, single_of, no_comma, parse_each, parse_fuel, parse_port_range,
}

-- A range that `uint16` can hold, with its ends in order.
abbrev pub IsRange : PortRange → Type 0
IsRange p = (p.start ≤ p.end) × (p.end ≤ 65535)

or_error-eq-ok : (message : Bytes) (x : Num ℕ) {n : ℕ} → or_error message x ≡ ok n → x ≡ value n
unfolding or_error
or_error-eq-ok message (value n) h = ground arith
or_error-eq-ok message err_syntax h = ground arith
or_error-eq-ok message err_range h = ground arith

or_error_bounded :
    (message s : Bytes) {n : ℕ} → or_error message (parse_uint max_u16 s) ≡ ok n → n ≤ 65535
or_error_bounded message s h =
    parse_uint_bounded max_u16 s (or_error-eq-ok message (parse_uint max_u16 s) h)

range_of-IsRange :
    (first second : Bytes) {rs : List PortRange} → range_of first second ≡ ok rs → All IsRange rs
unfolding range_of
range_of-IsRange first second {rs} h =
    let first_error = codes "invalid port start: " ++ first in
    let second_error = codes "invalid port end: " ++ second in
    let (start, at, h') = >>=-eq-ok (or_error first_error (parse_uint max_u16 first)) _ h in
    let (end, at', h'') = >>=-eq-ok (or_error second_error (parse_uint max_u16 second)) _ h' in
    ends start end (or_error_bounded first_error first at)
      (or_error_bounded second_error second at') (Bool-cases (ltb end start)) h''
  where
    inverted : Result (List PortRange)
    inverted = fail (
        other (
          codes "inverted port range: "
          ++ (first ++ (codes "-" ++ (second ++ codes " (start > end)")))))

    ends :
        (start end : ℕ)
        → start ≤ 65535
        → end ≤ 65535
        → (ltb end start ≡ true) ⊎ (ltb end start ≡ false)
        → (if ltb end start
            then inverted
            else ok (record { start = start % 65536; end = end % 65536 } ∷ []))
          ≡ ok rs
        → All IsRange rs
    ends start end b b' (inl down) e = absurd (clash (rw down at e))
      where
        clash : inverted ≡ ok rs → ⊥
        clash p = cc
    ends start end b b' (inr up) e =
        subst (All IsRange) (ok-injective (rw up at e)) (in_order start end b b' up, tt)
      where
        in_order :
            (start end : ℕ)
            → start ≤ 65535
            → end ≤ 65535
            → ltb end start ≡ false
            → (start % 65536 ≤ end % 65536) × (end % 65536 ≤ 65535)
        in_order start end b b' up = ground arith

single_of-IsRange : (s : Bytes) {rs : List PortRange} → single_of s ≡ ok rs → All IsRange rs
unfolding single_of
single_of-IsRange s h = ground (arith, or_error_bounded (codes "invalid port: " ++ s) s)

no_comma-IsRange : (s : Bytes) {rs : List PortRange} → no_comma s ≡ ok rs → All IsRange rs
unfolding no_comma
no_comma-IsRange s {rs} h = step (Bool-cases (contains_byte b'-' s)) h
  where
    step :
        (contains_byte b'-' s ≡ true) ⊎ (contains_byte b'-' s ≡ false)
        → (if contains_byte b'-' s then range_of (cut b'-' s).0 (cut b'-' s).1 else single_of s)
          ≡ ok rs
        → All IsRange rs
    step (inl dash) e = range_of-IsRange (cut b'-' s).0 (cut b'-' s).1 (rw dash at e)
    step (inr plain) e = single_of-IsRange s (rw plain at e)

parse_each-IsRange :
    (parse : Bytes → Result (List PortRange))
    → ((s : Bytes) (rs : List PortRange) → parse s ≡ ok rs → All IsRange rs)
    → (parts : List Bytes) (rs : List PortRange) → parse_each parse parts ≡ ok rs
    → All IsRange rs
unfolding parse_each
parse_each-IsRange parse sound [] rs h = ground arith
parse_each-IsRange parse sound (part ∷ parts) rs h =
    let (first, at, h') = >>=-eq-ok (parse (trim_space part)) _ h in
    let (rest, at', h'') = >>=-eq-ok (parse_each parse parts) _ h' in
    subst (All IsRange) (ok-injective h'') (
      All-append IsRange first rest (sound (trim_space part) first at)
        (parse_each-IsRange parse sound parts rest at'))

parse_fuel-IsRange :
    (fuel : ℕ) (s : Bytes) (rs : List PortRange) → parse_fuel fuel s ≡ ok rs → All IsRange rs
unfolding parse_fuel
parse_fuel-IsRange zero s rs h = ground arith
parse_fuel-IsRange (suc fuel) [] rs h = subst (All IsRange) (ok-injective h) tt
parse_fuel-IsRange (suc fuel) (c ∷ s) rs h =
    step (Bool-cases (contains_byte b',' (c ∷ s))) (parse_fuel-IsRange fuel)
  where
    step :
        (contains_byte b',' (c ∷ s) ≡ true) ⊎ (contains_byte b',' (c ∷ s) ≡ false)
        → ((s : Bytes) (rs : List PortRange) → parse_fuel fuel s ≡ ok rs → All IsRange rs)
        → All IsRange rs
    step (inl comma) ih =
        parse_each-IsRange (parse_fuel fuel) ih (split b',' (c ∷ s)) rs (rw comma at h)
    step (inr plain) ih = no_comma-IsRange (c ∷ s) (rw plain at h)

-- Every range that the parser returns has its ends in order and fits in 16 bits.
pub parse_port_range-IsRange :
    (s : Bytes) (rs : List PortRange) → parse_port_range s ≡ ok rs → All IsRange rs
unfolding parse_port_range
parse_port_range-IsRange s rs h = parse_fuel-IsRange 2 s rs h

parse_each-congr :
    (parse parse' : Bytes → Result (List PortRange)) (parts : List Bytes)
    → ((s : Bytes) → Lacks b',' s → parse s ≡ parse' s)
    → All (Lacks b',') parts
    → parse_each parse parts ≡ parse_each parse' parts
unfolding parse_each
parse_each-congr parse parse' [] same h = refl
parse_each-congr parse parse' (part ∷ parts) same (h, hs) =
    ap₂ (λ first rest. first >>= λ rs. rest >>= λ ranges. ok (rs ++ ranges))
      (same (trim_space part) (trim_space-All _ part h))
      (parse_each-congr parse parse' parts same hs)

parse_fuel_plain :
    (fuel fuel' : ℕ) (s : Bytes) → Lacks b',' s → parse_fuel (suc fuel) s ≡ parse_fuel (suc fuel') s
unfolding parse_fuel
parse_fuel_plain fuel fuel' [] h = refl
parse_fuel_plain fuel fuel' (c ∷ s) h = rw (contains_byte-Lacks b',' (c ∷ s) h)

-- What the source's `ParsePortRange` does with its recursive call `parse`.
abbrev pub body : (Bytes → Result (List PortRange)) → Bytes → Result (List PortRange)
body parse [] = ok []
body parse (c ∷ s) =
    if contains_byte b',' (c ∷ s) then parse_each parse (split b',' (c ∷ s)) else no_comma (c ∷ s)

-- The fuel is enough: the parser is a solution of the source's recursive definition.
pub parse_port_range-body : (s : Bytes) → parse_port_range s ≡ body parse_port_range s
unfolding parse_port_range
parse_port_range-body s = unroll s
  where
    unroll : (s : Bytes) → parse_fuel 2 s ≡ body (parse_fuel 2) s
    unroll [] = unfold parse_fuel in refl
    unroll (c ∷ s) =
        ap (λ several. if contains_byte b',' (c ∷ s) then several else no_comma (c ∷ s))
          (parse_each-congr (parse_fuel 1) (parse_fuel 2) (split b',' (c ∷ s))
            (λ t h. parse_fuel_plain 0 1 t h) (split-Lacks b',' (c ∷ s)))
