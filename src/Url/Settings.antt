-- ===== src/Url/Settings.antt =====
-- Forms that are set key by key, with what is not given left out: `Set` under an if, and a loop of
-- `Add`. A key without values stands for what is not given.
pub mod Laws
use hrobot_go.Base.{
  ◌≡◌, refl, sym, ap, ap₂, ◌∙◌, inl, inr, true, false, Bool-cases, List, [], ◌∷◌, ◌++◌, Bytes, All,
  All-weaken, bytes_eq, bytes_eq_iff, text_leb, if◌then◌else◌, keys, lookup, insert, lookup-insert,
  lookup-cons, insert-NodupKeys, NodupKeys, Same, held, Option, none, some, value_or, sort_strings,
  sort_strings-keys, sort_strings_ascending, sort_strings-IsAscending, IsAscending, insert_sorted,
  subst, map, arith,
}
use hrobot_go.Url.Escape.{IsByte}
use hrobot_go.Url.Values.{Values, value_pairs, key_pairs, pairs_of, IsBytes}

unfoldable pub put_all : Bytes → List Bytes → Values → Values
unfolding insert
put_all k [] m = m
put_all k (v ∷ vs) m = insert k (v ∷ vs) m

-- The form that the settings make, the last one set first.
unfoldable pub settings : Values → Values
unfolding put_all
settings [] = []
settings ((k, vs) ∷ m) = put_all k vs (settings m)

-- The pairs in the order of the keys, and of the values of a key.
abbrev pub flat : Values → List (Bytes × Bytes)
flat [] = []
flat ((k, vs) ∷ m) = value_pairs k vs ++ flat m

-- The keys that have values.
unfoldable pub cons_kept : Bytes → List Bytes → Values → Values
cons_kept k [] m = m
cons_kept k (v ∷ vs) m = (k, v ∷ vs) ∷ m

unfoldable pub kept : Values → Values
unfolding cons_kept
kept [] = []
kept ((k, vs) ∷ m) = cons_kept k vs (kept m)

unfoldable pub filled : Option (List Bytes) → Option (List Bytes)
filled none = none
filled (some []) = none
filled (some (v ∷ vs)) = some (v ∷ vs)

lookup-put_all :
    (k j : Bytes) (vs : List Bytes) (m : Values)
    → lookup j m ≡ none
    → lookup k (put_all j vs m) ≡ (if bytes_eq j k then filled (some vs) else lookup k m)
unfolding put_all filled
lookup-put_all k j [] m fresh = elim (Bool-cases (bytes_eq j k)) [
  | inl t ↦ rw t (ap (λ k. lookup k m) (sym ((bytes_eq_iff j k).0 t)) ∙ fresh)
  | inr f ↦ rw f refl
]
lookup-put_all k j (v ∷ vs) m fresh = lookup-insert k j (v ∷ vs) m

lookup-cons_kept :
    (k j : Bytes) (vs : List Bytes) (m : Values)
    → lookup j m ≡ none
    → lookup k (cons_kept j vs m) ≡ (if bytes_eq j k then filled (some vs) else lookup k m)
unfolding cons_kept filled
lookup-cons_kept k j [] m fresh = elim (Bool-cases (bytes_eq j k)) [
  | inl t ↦ rw t (ap (λ k. lookup k m) (sym ((bytes_eq_iff j k).0 t)) ∙ fresh)
  | inr f ↦ rw f refl
]
lookup-cons_kept k j (v ∷ vs) m fresh = lookup-cons k j (v ∷ vs) m

-- Both hold at a key what the settings say there.
filled-cons :
    (k j : Bytes) (vs : List Bytes) (m : Values) {o : Option (List Bytes)}
    → o ≡ filled (lookup k m)
    → (if bytes_eq j k then filled (some vs) else o) ≡ filled (lookup k ((j, vs) ∷ m))
unfolding filled
filled-cons k j vs m h = elim (Bool-cases (bytes_eq j k)) [
  | inl t ↦ rw (lookup-cons k j vs m, t) refl
  | inr f ↦ rw (lookup-cons k j vs m, f) h
]

pub lookup-settings :
    (k : Bytes) (m : Values) → NodupKeys m → lookup k (settings m) ≡ filled (lookup k m)
unfolding settings filled lookup
lookup-settings k [] u = refl
lookup-settings k ((j, vs) ∷ m) (fresh, u) =
    lookup-put_all k j vs (settings m) (lookup-settings j m u ∙ ap filled fresh)
    ∙ filled-cons k j vs m (lookup-settings k m u)

pub lookup-kept : (k : Bytes) (m : Values) → NodupKeys m → lookup k (kept m) ≡ filled (lookup k m)
unfolding kept filled lookup
lookup-kept k [] u = refl
lookup-kept k ((j, vs) ∷ m) (fresh, u) =
    lookup-cons_kept k j vs (kept m) (lookup-kept j m u ∙ ap filled fresh)
    ∙ filled-cons k j vs m (lookup-kept k m u)

pub settings-NodupKeys : (m : Values) → NodupKeys (settings m)
unfolding settings put_all
settings-NodupKeys [] = tt
settings-NodupKeys ((k, []) ∷ m) = settings-NodupKeys m
settings-NodupKeys ((k, v ∷ vs) ∷ m) =
    insert-NodupKeys k (v ∷ vs) (settings m) (settings-NodupKeys m)

pub kept-NodupKeys : (m : Values) → NodupKeys m → NodupKeys (kept m)
unfolding kept cons_kept filled
kept-NodupKeys [] u = tt
kept-NodupKeys ((k, []) ∷ m) (fresh, u) = kept-NodupKeys m u
kept-NodupKeys ((k, v ∷ vs) ∷ m) (fresh, u) =
    (lookup-kept k m u ∙ ap filled fresh, kept-NodupKeys m u)

-- The settings in ascending order of their keys.
unfoldable pub place : Bytes → List Bytes → Values → Values
place k vs [] = (k, vs) ∷ []
place k vs ((j, ws) ∷ m) = if text_leb k j then (k, vs) ∷ (j, ws) ∷ m else (j, ws) ∷ place k vs m

unfoldable pub arrange : Values → Values
unfolding place
arrange [] = []
arrange ((k, vs) ∷ m) = place k vs (arrange m)

lookup-place :
    (k j : Bytes) (vs : List Bytes) (m : Values)
    → lookup j m ≡ none
    → lookup k (place j vs m) ≡ (if bytes_eq j k then some vs else lookup k m)
unfolding place lookup
lookup-place k j vs [] fresh = refl
lookup-place k j vs ((i, ws) ∷ m) fresh =
    ground (arith, bytes_eq_iff i k, bytes_eq_iff i j, bytes_eq_iff j k, lookup-place k j vs m)

pub lookup-arrange : (k : Bytes) (m : Values) → NodupKeys m → lookup k (arrange m) ≡ lookup k m
unfolding arrange lookup
lookup-arrange k [] u = refl
lookup-arrange k ((j, vs) ∷ m) (fresh, u) =
    lookup-place k j vs (arrange m) (lookup-arrange j m u ∙ fresh) ∙ rw (lookup-arrange k m u) refl

place-NodupKeys :
    (k : Bytes) (vs : List Bytes) (m : Values)
    → lookup k m ≡ none
    → NodupKeys m
    → NodupKeys (place k vs m)
unfolding place lookup
place-NodupKeys k vs [] fresh u = (refl, tt)
place-NodupKeys k vs ((j, ws) ∷ m) fresh (behind, u) =
    ground
      (arith, bytes_eq_iff j k, bytes_eq_iff k j, lookup-place j k vs m, place-NodupKeys k vs m)

pub arrange-NodupKeys : (m : Values) → NodupKeys m → NodupKeys (arrange m)
unfolding arrange
arrange-NodupKeys [] u = tt
arrange-NodupKeys ((k, vs) ∷ m) (fresh, u) =
    place-NodupKeys k vs (arrange m) (lookup-arrange k m u ∙ fresh) (arrange-NodupKeys m u)
