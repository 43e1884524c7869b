-- ===== src/Types/Ports/RoundTrip.antt =====
-- `ParsePortRange` reads back what `String` prints, one range or several joined by commas.
use hrobot_go.Base.{
  ℕ, suc, ◌≡◌, ◌≢◌, ◌≤◌, ◌⊎◌, inl, inr, refl, sym, ◌∙◌, ap, List, [], ◌∷◌, ◌++◌, arith, Bytes,
  codes, All, All-append, All-weaken, map, Lacks, join, itoa, itoa-IsDigit, itoa-ne-nil, IsDigit,
  parse_uint-itoa, max_u16, cut-append, contains_byte-Lacks, contains_byte-append_cons, split,
  split-join, trim_space, trim_space-IsGraphic, IsGraphic, ◌==◌, Bool-cases,
}
use hrobot_go.Errors.{ok}
use hrobot_go.Types.Ports.{
  PortRange, or_error, range_of, single_of, no_comma, parse_each, parse_fuel, parse_port_range,
  to_text,
}
use hrobot_go.Types.Ports.Laws.{IsRange}

digits_lack : (n b : ℕ) → (b ≤ 47) → Lacks b (itoa n)
digits_lack n b h = All-weaken IsDigit (λ c. c ≢ b) (λ c d. omega arith) (itoa n) (itoa-IsDigit n)

digits-IsGraphic : (n : ℕ) → All IsGraphic (itoa n)
digits-IsGraphic n = All-weaken IsDigit IsGraphic (λ c d. omega arith) (itoa n) (itoa-IsDigit n)

abbrev dashed : PortRange → Bytes
dashed p = itoa p.start ++ (b'-' ∷ itoa p.end)

to_text_cases :
    (p : PortRange) → ((p.start ≡ p.end) × (to_text p ≡ itoa p.start)) ⊎ (to_text p ≡ dashed p)
unfolding to_text
to_text_cases p = elim (Bool-cases (p.start == p.end)) [
  | inl same ↦ inl (ground arith, rw same)
  | inr differ ↦ inr (rw differ)
]

to_text-All :
    (P : ℕ → Type 0) (p : PortRange) → ((n : ℕ) → All P (itoa n)) → P b'-' → All P (to_text p)
to_text-All P p digits dash = go (to_text_cases p)
  where
    go :
        ((p.start ≡ p.end) × (to_text p ≡ itoa p.start)) ⊎ (to_text p ≡ dashed p)
        → All P (to_text p)
    go (inl (_, t)) = rw t (digits p.start)
    go (inr t) = rw t (All-append P (itoa p.start) _ (digits p.start) (dash, digits p.end))

to_text-Lacks_comma : (p : PortRange) → Lacks b',' (to_text p)
to_text-Lacks_comma p = to_text-All _ p (λ n. digits_lack n b',' (omega arith)) (omega arith)

to_text-IsGraphic : (p : PortRange) → All IsGraphic (to_text p)
to_text-IsGraphic p = to_text-All IsGraphic p digits-IsGraphic (omega arith)

single_of-itoa : (n : ℕ) → n ≤ 65535 → single_of (itoa n) ≡ ok (record { start = n; end = n } ∷ [])
unfolding single_of or_error
single_of-itoa n h = rw (parse_uint-itoa max_u16 n h) (ground arith)

range_of-itoa :
    (m n : ℕ)
    → m ≤ n
    → n ≤ 65535
    → range_of (itoa m) (itoa n) ≡ ok (record { start = m; end = n } ∷ [])
unfolding range_of or_error
range_of-itoa m n h k =
    rw (parse_uint-itoa max_u16 m (omega arith), parse_uint-itoa max_u16 n k) (ground arith)

no_comma-itoa : (n : ℕ) → n ≤ 65535 → no_comma (itoa n) ≡ ok (record { start = n; end = n } ∷ [])
unfolding no_comma
no_comma-itoa n h =
    rw (contains_byte-Lacks b'-' (itoa n) (digits_lack n b'-' (omega arith))) (single_of-itoa n h)

no_comma-dashed :
    (m n : ℕ)
    → m ≤ n
    → n ≤ 65535
    → no_comma (itoa m ++ (b'-' ∷ itoa n)) ≡ ok (record { start = m; end = n } ∷ [])
unfolding no_comma
no_comma-dashed m n h k =
    rw
      (
        contains_byte-append_cons b'-' (itoa m) (itoa n),
        cut-append b'-' (itoa m) (itoa n) (digits_lack m b'-' (omega arith)),
      )
      (range_of-itoa m n h k)

no_comma-to_text : (p : PortRange) → IsRange p → no_comma (to_text p) ≡ ok (p ∷ [])
no_comma-to_text p h = go (to_text_cases p)
  where
    both : p.start ≡ p.end → ◌≡◌ {A = PortRange} (record { start = p.start; end = p.start }) p
    both same = ap (λ n. record { start = p.start; end = n }) same

    go :
        ((p.start ≡ p.end) × (to_text p ≡ itoa p.start)) ⊎ (to_text p ≡ dashed p)
        → no_comma (to_text p) ≡ ok (p ∷ [])
    go (inl (same, t)) =
        ap no_comma t
        ∙ no_comma-itoa p.start (omega (arith, same))
        ∙ ap (λ q. ok (q ∷ [])) (both same)
    go (inr t) = ap no_comma t ∙ no_comma-dashed p.start p.end h.0 h.1

to_text-ne-nil : (p : PortRange) → to_text p ≢ []
to_text-ne-nil p e = go (to_text_cases p)
  where
    go : ((p.start ≡ p.end) × (to_text p ≡ itoa p.start)) ⊎ (to_text p ≡ dashed p) → ⊥
    go (inl (same, t)) = itoa-ne-nil p.start (sym t ∙ e)
    go (inr t) = append_ne (itoa p.start) (sym t ∙ e)
      where
        append_ne : (s : Bytes) → (s ++ (b'-' ∷ itoa p.end)) ≢ []
        append_ne [] q = cc
        append_ne (c ∷ s) q = cc

parse_fuel_plain :
    (fuel : ℕ) (s : Bytes) → s ≢ [] → Lacks b',' s → parse_fuel (suc fuel) s ≡ no_comma s
unfolding parse_fuel
parse_fuel_plain fuel [] n h = absurd (n refl)
parse_fuel_plain fuel (c ∷ s) n h = rw (contains_byte-Lacks b',' (c ∷ s) h)

parse_fuel_comma :
    (fuel : ℕ) (s t : Bytes)
    → parse_fuel (suc fuel) (s ++ b',' ∷ t)
      ≡ parse_each (parse_fuel fuel) (split b',' (s ++ b',' ∷ t))
unfolding parse_fuel
parse_fuel_comma fuel [] t = ground (arith, contains_byte-append_cons b',' [] t)
parse_fuel_comma fuel (c ∷ s) t = rw (contains_byte-append_cons b',' (c ∷ s) t)

parse_fuel-to_text :
    (fuel : ℕ) (p : PortRange)
    → IsRange p
    → parse_fuel (suc fuel) (trim_space (to_text p)) ≡ ok (p ∷ [])
parse_fuel-to_text fuel p h =
    ap (parse_fuel (suc fuel)) (trim_space-IsGraphic (to_text p) (to_text-IsGraphic p))
    ∙ parse_fuel_plain fuel (to_text p) (to_text-ne-nil p) (to_text-Lacks_comma p)
    ∙ no_comma-to_text p h

parse_each-to_text :
    (ps : List PortRange) → All IsRange ps → parse_each (parse_fuel 1) (map to_text ps) ≡ ok ps
unfolding parse_each
parse_each-to_text [] h = refl
parse_each-to_text (p ∷ ps) (h, hs) = rw (parse_fuel-to_text 0 p h, parse_each-to_text ps hs)

map-Lacks : (ps : List PortRange) → All (Lacks b',') (map to_text ps)
map-Lacks [] = tt
map-Lacks (p ∷ ps) = (to_text-Lacks_comma p, map-Lacks ps)

-- The text of a list of ranges, as `ParsePortRange` takes it.
unfoldable pub ports_text : List PortRange → Bytes
unfolding join to_text
ports_text ps = join (codes ",") (map to_text ps)

-- Ranges in order, at least one, that fit in 16 bits are read back from their printed form.
pub parse_port_range-ports_text :
    (p : PortRange) (ps : List PortRange)
    → All IsRange (p ∷ ps)
    → parse_port_range (ports_text (p ∷ ps)) ≡ ok (p ∷ ps)
unfolding parse_port_range ports_text
parse_port_range-ports_text p [] (h, _) =
    parse_fuel_plain 1 (to_text p) (to_text-ne-nil p) (to_text-Lacks_comma p) ∙ no_comma-to_text p h
parse_port_range-ports_text p (q ∷ qs) h =
    parse_fuel_comma 1 (to_text p) (join (codes ",") (map to_text (q ∷ qs)))
    ∙ ap (parse_each (parse_fuel 1)) (
        split-join b',' (to_text p) (map to_text (q ∷ qs)) (to_text-Lacks_comma p)
          (map-Lacks (q ∷ qs)))
    ∙ parse_each-to_text (p ∷ q ∷ qs) h
