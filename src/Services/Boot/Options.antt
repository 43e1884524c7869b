-- ===== src/Services/Boot/Options.antt =====
-- boot.go: how the fields of type `any` are read.
use hrobot_go.Base.{◌≡◌, refl, ap, List, [], ◌∷◌, map, Bytes, Option, none, some, ℤ, pos}

-- A decoded JSON value, as far as it is looked at: texts, whole numbers, other numbers by the
-- integer that `int` makes of them, arrays of the former, and the rest.
pub data Scalar : Type 0 where
  text : Bytes → Scalar
  int : ℤ → Scalar
  float64 : ℤ → Scalar
  neither : Scalar

pub data Any : Type 0 where
  scalar : Scalar → Any
  array : List Scalar → Any

unfoldable pub scalar_string : Any → Bytes
scalar_string (scalar (text s)) = s
scalar_string v = []

strings_of : List Scalar → List Bytes
strings_of [] = []
strings_of (text s ∷ items) = s ∷ strings_of items
strings_of (int n ∷ items) = strings_of items
strings_of (float64 n ∷ items) = strings_of items
strings_of (neither ∷ items) = strings_of items

-- A nil slice where the value is no array.
unfoldable pub option_strings : Any → Option (List Bytes)
unfolding strings_of
option_strings (array items) = some (strings_of items)
option_strings (scalar v) = none

unfoldable pub scalar_int : Any → ℤ
scalar_int (scalar (float64 n)) = n
scalar_int (scalar (int n)) = n
scalar_int v = pos 0

ints_of : List Scalar → List ℤ
ints_of [] = []
ints_of (float64 n ∷ items) = n ∷ ints_of items
ints_of (int n ∷ items) = n ∷ ints_of items
ints_of (text s ∷ items) = ints_of items
ints_of (neither ∷ items) = ints_of items

unfoldable pub option_ints : Any → Option (List ℤ)
unfolding ints_of
option_ints (array items) = some (ints_of items)
option_ints (scalar v) = none

pub record BootKeyDetail : Type 0 where
  pub name : Bytes
  pub fingerprint : Bytes
  pub type : Bytes
  pub size : ℤ

pub record BootKey : Type 0 where
  pub key : BootKeyDetail

strings_of-map : (ss : List Bytes) → strings_of (map text ss) ≡ ss
unfolding strings_of
strings_of-map [] = refl
strings_of-map (s ∷ ss) = ap (λ ss. s ∷ ss) (strings_of-map ss)

ints_of-map : (ns : List ℤ) → ints_of (map float64 ns) ≡ ns
unfolding ints_of
ints_of-map [] = refl
ints_of-map (n ∷ ns) = ap (λ ns. n ∷ ns) (ints_of-map ns)

-- A list of texts, and one of numbers, are the choices as they stand.
pub option_strings-map : (ss : List Bytes) → option_strings (array (map text ss)) ≡ some ss
unfolding option_strings
option_strings-map ss = ap some (strings_of-map ss)

pub option_ints-map : (ns : List ℤ) → option_ints (array (map float64 ns)) ≡ some ns
unfolding option_ints
option_ints-map ns = ap some (ints_of-map ns)
