-- ===== src/Base/Maps.antt =====
-- Go maps with string keys, as association lists. The iteration order of a Go map is not
-- specified; the order of the list stands for it, and `Same` says that two lists are one map.
use hrobot_go.Base.Tests.{if◌then◌else◌}
use hrobot_go.Base.Lists.{count, count-nil, count-cons_self, count-cons_ne, eq_or_ne}
use hrobot_go.Base.Text.{Bytes, text_eq, bytes_eq, bytes_eq_iff}
use hrobot_go.Base.Order.{sort_strings, sort_strings_unique}
use Prim.Native.Nat.{ℕ}
use mathlib.Core.Path.{◌≡◌, refl, sym, ◌∙◌}
use mathlib.Core.Logic.{◌≢◌, ◌⊎◌, inl, inr}
use mathlib.Core.Option.{Option, none, some}
use mathlib.Core.List.{List, [], ◌∷◌}
use native.Mathlib.Omega.{arith}

abbrev pub Map {ℓ} : Type ℓ → Type ℓ
Map V = List (Bytes × V)

module _ {ℓ} {V : Type ℓ} where
  abbrev pub keys : Map V → List Bytes
  keys [] = []
  keys ((k, v) ∷ m) = k ∷ keys m

  unfoldable pub lookup : Bytes → Map V → Option V
  unfolding bytes_eq
  lookup k [] = none
  lookup k ((j, v) ∷ m) = if bytes_eq j k then some v else lookup k m

  -- `m[k] = v`.
  unfoldable pub insert : Bytes → V → Map V → Map V
  unfolding bytes_eq
  insert k v [] = (k, v) ∷ []
  insert k v ((j, w) ∷ m) = if bytes_eq j k then (k, v) ∷ m else (j, w) ∷ insert k v m

  -- No key stands twice.
  abbrev pub NodupKeys : Map V → Type ℓ
  NodupKeys [] = Unit
  NodupKeys ((k, v) ∷ m) = (lookup k m ≡ none) × NodupKeys m

  pub lookup-insert :
      (j k : Bytes) (v : V) (m : Map V)
      → lookup j (insert k v m) ≡ (if bytes_eq k j then some v else lookup j m)
  unfolding lookup insert
  lookup-insert j k v [] = refl
  lookup-insert j k v ((i, w) ∷ m) =
      ground (arith, bytes_eq_iff i k, bytes_eq_iff i j, bytes_eq_iff k j, lookup-insert j k v m)

  pub insert-NodupKeys : (k : Bytes) (v : V) (m : Map V) → NodupKeys m → NodupKeys (insert k v m)
  unfolding insert
  insert-NodupKeys k v [] u = (unfold lookup in refl, tt)
  insert-NodupKeys k v ((j, w) ∷ m) (fresh, u) =
      ground
        (arith, insert-NodupKeys k v m u, lookup-insert j k v m, bytes_eq_iff j k, bytes_eq_iff k j)

  pub lookup-cons :
      (k j : Bytes) (v : V) (m : Map V)
      → lookup k ((j, v) ∷ m) ≡ (if bytes_eq j k then some v else lookup k m)
  unfolding lookup
  lookup-cons k j v m = refl

  pub lookup-cons_self : (k : Bytes) (v : V) (m : Map V) → lookup k ((k, v) ∷ m) ≡ some v
  unfolding lookup
  lookup-cons_self k v m = ground (arith, bytes_eq_iff k k)

  pub lookup-cons_ne :
      (k j : Bytes) (v : V) (m : Map V) → j ≢ k → lookup k ((j, v) ∷ m) ≡ lookup k m
  unfolding lookup
  lookup-cons_ne k j v m h = ground (arith, bytes_eq_iff j k)

  -- How many keys an entry is.
  abbrev pub held : Option V → ℕ
  held none = 0
  held (some v) = 1

  count-keys : (k : Bytes) (m : Map V) → NodupKeys m → count k (keys m) ≡ held (lookup k m)
  count-keys k [] u = unfold lookup in count-nil k
  count-keys k ((j, v) ∷ m) (fresh, u) = step (count-keys k m u) (eq_or_ne j k)
    where
      step :
          count k (keys m) ≡ held (lookup k m)
          → (j ≡ k) ⊎ (j ≢ k)
          → count k (j ∷ keys m) ≡ held (lookup k ((j, v) ∷ m))
      step ih (inl e) =
          let absent : lookup k m ≡ none = rw e at fresh in
          let none_left : count k (keys m) ≡ 0 = rw absent at ih in
          rw e (rw (count-cons_self, lookup-cons_self) (rw none_left))
      step ih (inr n) = rw (count-cons_ne k j (keys m) n, lookup-cons_ne k j v m n) ih

  abbrev pub value_or : V → Option V → V
  value_or zero_value none = zero_value
  value_or zero_value (some v) = v

  -- `m[k]`, where a missing key gives the zero value of the type.
  abbrev pub get_or : Bytes → V → Map V → V
  get_or k zero_value m = value_or zero_value (lookup k m)

  -- The same keys with the same values, in any order.
  abbrev pub Same : Map V → Map V → Type ℓ
  Same m m' = (k : Bytes) → lookup k m ≡ lookup k m'

module _ {ℓ κ} {V : Type ℓ} {W : Type κ} where
  -- The keys in ascending order depend on which keys the map has, not on the order of iteration.
  pub sort_strings-keys :
      (m : Map V) (m' : Map W)
      → NodupKeys m
      → NodupKeys m'
      → ((k : Bytes) → held (lookup k m) ≡ held (lookup k m'))
      → sort_strings (keys m) ≡ sort_strings (keys m')
  sort_strings-keys m m' u u' same =
      sort_strings_unique (keys m) (keys m')
        (λ k. count-keys k m u ∙ same k ∙ sym (count-keys k m' u'))
