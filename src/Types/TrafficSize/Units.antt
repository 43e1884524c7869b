-- ===== src/Types/TrafficSize/Units.antt =====
-- How `formatBytes` chooses the unit.
use hrobot_go.Base.{
  ℕ, zero, suc, ◌≡◌, refl, ap, ◌∙◌, ◌+◌, ◌/◌, ◌^◌, ◌≤◌, ◌<◌, Bool-cases, inl, inr, ◌⊎◌, ◌++◌, ◌∷◌,
  codes, itoa, ltb, some, get_elem?, arith, max_u64,
}
use hrobot_go.Types.Scalars.{Float}
use hrobot_go.Types.TrafficSize.{scale_loop, format_bytes, scaled, lettered, with_letter}

-- The unit with index `e` fits: one digit or more and at most four stand before the point.
abbrev pub Fits : ℕ → ℕ → Type 0
Fits bytes e = (e < 6) × (1024 ^ (e + 1) ≤ bytes) × (bytes < 1024 ^ (e + 2))

-- Some unit fits every number that a uint64 holds and that needs one.
unit_of :
    (n : ℕ)
    → 1024 ≤ n
    → n < 2 ^ 64
    → Fits n 0 ⊎ (Fits n 1 ⊎ (Fits n 2 ⊎ (Fits n 3 ⊎ (Fits n 4 ⊎ Fits n 5))))
unit_of n h k = omega arith

-- The loop ends within its rounds at the unit that fits.
pub scale_loop_fits :
    (n : ℕ)
    → 1024 ≤ n
    → n < 2 ^ 64
    → (e : ℕ) × (scale_loop 6 (n / 1024) 1024 0 ≡ (1024 ^ (e + 1), e)) × Fits n e
unfolding scale_loop
scale_loop_fits n h k = elim (unit_of n h k) [
  | inl f ↦ (0, ground arith, f)
  | inr (inl f) ↦ (1, ground arith, f)
  | inr (inr (inl f)) ↦ (2, ground arith, f)
  | inr (inr (inr (inl f))) ↦ (3, ground arith, f)
  | inr (inr (inr (inr (inl f)))) ↦ (4, ground arith, f)
  | inr (inr (inr (inr (inr f)))) ↦ (5, ground arith, f)
]

letter_at : (e : ℕ) → e < 6 → (c : ℕ) × (get_elem? (codes "KMGTPE") e ≡ some c)
letter_at zero h = (_, refl)
letter_at (suc zero) h = (_, refl)
letter_at (suc (suc zero)) h = (_, refl)
letter_at (suc (suc (suc zero))) h = (_, refl)
letter_at (suc (suc (suc (suc zero)))) h = (_, refl)
letter_at (suc (suc (suc (suc (suc zero))))) h = (_, refl)
letter_at (suc (suc (suc (suc (suc (suc e)))))) h = absurd (omega arith)

module _ (D : Float) where
  scaled_lem :
      (n e : ℕ) (p : ℕ × ℕ) {c : ℕ}
      → p ≡ (1024 ^ (e + 1), e)
      → get_elem? (codes "KMGTPE") e ≡ some c
      → scaled D n p
        ≡ some (D.fixed1 (D.div (D.of_nat n) (D.of_nat (1024 ^ (e + 1)))) ++ (b' ' ∷ c ∷ codes "B"))
  unfolding scaled lettered with_letter
  scaled_lem n e p {c} h at =
      ap (scaled D n) h ∙ ap (lettered D (D.div (D.of_nat n) (D.of_nat (1024 ^ (e + 1))))) at

  -- A number of bytes that a uint64 holds is printed as it is below 1024, and otherwise by its
  -- quotient by the power of 1024 that leaves one to four digits before the point, with the letter
  -- of that power: the loop ends, the divisor does not wrap, and the letter exists.
  pub format_bytes_lem :
      (n : ℕ)
      → n ≤ max_u64
      → ((n < 1024) × (format_bytes D n ≡ some (itoa n ++ codes " B")))
        ⊎ ((e : ℕ) × (c : ℕ) × Fits n e
            × (get_elem? (codes "KMGTPE") e ≡ some c)
            × (format_bytes D n
                ≡ some (
                    D.fixed1 (D.div (D.of_nat n) (D.of_nat (1024 ^ (e + 1))))
                    ++ (b' ' ∷ c ∷ codes "B"))))
  unfolding format_bytes
  format_bytes_lem n h = elim (Bool-cases (ltb n 1024)) [
    | inl t ↦ inl (ground arith, rw t refl)
    | inr f ↦
        let (e, loops, fits) = scale_loop_fits n (ground arith) (omega arith) in
        let (c, at) = letter_at e fits.0 in inr (e, c, fits, at, rw f (scaled_lem n e _ loops at))
  ]
