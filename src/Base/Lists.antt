-- ===== src/Base/Lists.antt =====
-- Lists measured by native numbers, predicates over lists, and how often a value occurs in one.
use Prim.Native.Nat.{ℕ, zero, suc, ◌+◌, ◌≤◌}
use mathlib.Core.Path.{◌≡◌, refl}
use mathlib.Core.Bool.{Bool, true, false, ◌&&◌}
use mathlib.Core.List.{List, [], ◌∷◌, ◌++◌}
use mathlib.Core.Option.{Option, none, some}
use native.Mathlib.Omega.{arith}
use mathlib.Core.Logic.{◌≢◌, ◌⊎◌, inl, inr}
use hrobot_go.Base.Tests.{Eq, Bool-cases, if◌then◌else◌}

module _ {ℓ} {A : Type ℓ} where
  abbrev pub get_elem? : List A → ℕ → Option A
  get_elem? [] i = none
  get_elem? (x ∷ xs) zero = some x
  get_elem? (x ∷ xs) (suc i) = get_elem? xs i

  abbrev pub length : List A → ℕ
  length [] = 0
  length (x ∷ xs) = suc (length xs)

  abbrev pub take : ℕ → List A → List A
  take zero xs = []
  take (suc n) [] = []
  take (suc n) (x ∷ xs) = x ∷ take n xs

  abbrev pub drop : ℕ → List A → List A
  drop zero xs = xs
  drop (suc n) [] = []
  drop (suc n) (x ∷ xs) = drop n xs

  pub length-append : (xs ys : List A) → length (xs ++ ys) ≡ length xs + length ys
  length-append [] ys = omega arith
  length-append (x ∷ xs) ys = omega (arith, length-append xs ys)

  pub length-take : (n : ℕ) (xs : List A) → length (take n xs) ≤ n
  length-take zero xs = omega arith
  length-take (suc n) [] = omega arith
  length-take (suc n) (x ∷ xs) = omega (arith, length-take n xs)

module _ {ℓ κ} {A : Type ℓ} (P : A → Type κ) where
  abbrev pub All : List A → Type κ
  All [] = Unit
  All (x ∷ xs) = P x × All xs

  pub All-append : (xs ys : List A) → All xs → All ys → All (xs ++ ys)
  All-append [] ys hx hy = hy
  All-append (x ∷ xs) ys (px, hx) hy = (px, All-append xs ys hx hy)

pub All-weaken {ℓ κ μ} :
    {A : Type ℓ} (P : A → Type κ) (Q : A → Type μ)
    → ((a : A) → P a → Q a)
    → (xs : List A) → All P xs
    → All Q xs
All-weaken P Q h [] p = tt
All-weaken P Q h (x ∷ xs) (p, ps) = (h x p, All-weaken P Q h xs ps)

module _ {ℓ} {A : Type ℓ} ⦃e : Eq A⦄ where
  -- How often `a` occurs.
  unfoldable pub count : A → List A → ℕ
  count a [] = 0
  count a (x ∷ xs) = (if e.beq x a then 1 else 0) + count a xs

  pub count-append : (a : A) (xs ys : List A) → count a (xs ++ ys) ≡ count a xs + count a ys
  unfolding count
  count-append a [] ys = omega arith
  count-append a (x ∷ xs) ys = omega (arith, count-append a xs ys)

  pub count-cons_self : (a : A) (xs : List A) → count a (a ∷ xs) ≡ suc (count a xs)
  unfolding count
  count-cons_self a xs = ground (arith, e.beq_iff a a)

  pub count-cons_of_eq : (a x : A) (xs : List A) → x ≡ a → count a (x ∷ xs) ≡ suc (count a xs)
  count-cons_of_eq a x xs p = rw p (count-cons_self a xs)

  pub count-cons_ne : (a x : A) (xs : List A) → x ≢ a → count a (x ∷ xs) ≡ count a xs
  unfolding count
  count-cons_ne a x xs h = ground (arith, e.beq_iff x a)

  pub count-nil : (a : A) → count a [] ≡ 0
  unfolding count
  count-nil a = refl

  -- Equality of two values is decided by the test.
  pub eq_or_ne : (x a : A) → (x ≡ a) ⊎ (x ≢ a)
  eq_or_ne x a = elim (Bool-cases (e.beq x a)) [
    | inl same ↦ inl ((e.beq_iff x a).0 same)
    | inr other ↦ inr (λ p. cc ((e.beq_iff x a).1 p))
  ]

  -- Go's element by element comparison of two slices.
  unfoldable pub list_eq : List A → List A → Bool
  list_eq [] [] = true
  list_eq (x ∷ xs) (y ∷ ys) = e.beq x y && list_eq xs ys
  list_eq _ _ = false

  pub list_eq→eq : (xs ys : List A) → list_eq xs ys ≡ true → xs ≡ ys
  unfolding list_eq
  list_eq→eq [] [] h = refl
  list_eq→eq [] (y ∷ ys) h = ground arith
  list_eq→eq (x ∷ xs) [] h = ground arith
  list_eq→eq (x ∷ xs) (y ∷ ys) h = ground (arith, list_eq→eq xs ys, e.beq_iff x y)

  pub list_eq_refl : (xs : List A) → list_eq xs xs ≡ true
  unfolding list_eq
  list_eq_refl [] = refl
  list_eq_refl (x ∷ xs) = ground (arith, list_eq_refl xs, e.beq_iff x x)
