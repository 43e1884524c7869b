-- ===== src/Url/Settings/Laws.antt =====
-- What a server reads from a form of settings.
use hrobot_go.Base.{
  ◌≡◌, refl, sym, ap, ap₂, ◌∙◌, inl, inr, Bool-cases, List, [], ◌∷◌, ◌++◌, Bytes, All, All-weaken,
  bytes_eq, bytes_eq_iff, text_leb, keys, lookup, lookup-cons, NodupKeys, Same, held, none, some,
  value_or, sort_strings, sort_strings-keys, sort_strings_ascending, sort_strings-IsAscending,
  IsAscending, insert_sorted, subst,
}
use hrobot_go.Url.Escape.{IsByte}
use hrobot_go.Url.Values.{Values, value_pairs, key_pairs, pairs_of, IsBytes}
use hrobot_go.Url.Settings.{
  settings, flat, kept, cons_kept, filled, place, arrange, lookup-settings, lookup-kept,
  lookup-arrange, kept-NodupKeys, settings-NodupKeys, arrange-NodupKeys,
}

keys-place :
    (k : Bytes) (vs : List Bytes) (m : Values) → keys (place k vs m) ≡ insert_sorted k (keys m)
unfolding place insert_sorted
keys-place k vs [] = refl
keys-place k vs ((j, ws) ∷ m) = elim (Bool-cases (text_leb k j)) [
  | inl t ↦ rw t refl
  | inr f ↦ rw f (ap (λ ks. j ∷ ks) (keys-place k vs m))
]

keys-arrange : (m : Values) → keys (arrange m) ≡ sort_strings (keys m)
unfolding arrange sort_strings
keys-arrange [] = refl
keys-arrange ((k, vs) ∷ m) = keys-place k vs (arrange m) ∙ ap (insert_sorted k) (keys-arrange m)

keys-kept-All : (P : Bytes → Type 0) (m : Values) → All P (keys m) → All P (keys (kept m))
unfolding kept cons_kept
keys-kept-All P [] h = tt
keys-kept-All P ((k, []) ∷ m) (hk, h) = keys-kept-All P m h
keys-kept-All P ((k, v ∷ vs) ∷ m) (hk, h) = (hk, keys-kept-All P m h)

kept-IsAscending : (m : Values) → IsAscending (keys m) → IsAscending (keys (kept m))
unfolding kept cons_kept
kept-IsAscending [] h = tt
kept-IsAscending ((k, []) ∷ m) (hk, h) = kept-IsAscending m h
kept-IsAscending ((k, v ∷ vs) ∷ m) (hk, h) = (keys-kept-All _ m hk, kept-IsAscending m h)

flat-kept : (m : Values) → flat (kept m) ≡ flat m
unfolding kept cons_kept
flat-kept [] = refl
flat-kept ((k, []) ∷ m) = flat-kept m
flat-kept ((k, v ∷ vs) ∷ m) = ap (λ ps. value_pairs k (v ∷ vs) ++ ps) (flat-kept m)

-- What the map holds at the keys of another.
Holds : Values → Values → Type 0
Holds m xs = All (λ (p : Bytes × List Bytes). lookup p.0 m ≡ some p.1) xs

key_pairs-Holds : (m xs : Values) → Holds m xs → key_pairs m (keys xs) ≡ flat xs
unfolding Holds
key_pairs-Holds m [] h = refl
key_pairs-Holds m ((k, vs) ∷ xs) (hk, h) =
    ap₂ (λ o rest. value_pairs k (value_or [] o) ++ rest) hk (key_pairs-Holds m xs h)

lookup-behind :
    (j k : Bytes) (ws vs : List Bytes) (m : Values)
    → lookup j m ≡ none
    → lookup k m ≡ some vs
    → lookup k ((j, ws) ∷ m) ≡ some vs
unfolding lookup
lookup-behind j k ws vs m fresh h = elim (Bool-cases (bytes_eq j k)) [
  | inl t ↦ cc (sym fresh ∙ ap (λ k. lookup k m) ((bytes_eq_iff j k).0 t) ∙ h)
  | inr f ↦ rw f h
]

NodupKeys-Holds : (m : Values) → NodupKeys m → Holds m m
unfolding Holds
NodupKeys-Holds [] u = tt
NodupKeys-Holds ((k, vs) ∷ m) (fresh, u) = (
  lookup-cons k k vs m ∙ rw ((bytes_eq_iff k k).1 refl) refl,
  All-weaken _ _ (λ p q. lookup-behind k p.0 vs p.1 m fresh q) m (NodupKeys-Holds m u),
)

-- Every key and every value is made of bytes.
abbrev pub HasBytes : Values → Type 0
HasBytes m = All (λ (p : Bytes × List Bytes). All IsByte p.0 × All (All IsByte) p.1) m

Holds-IsBytes : (m xs : Values) → Holds m xs → HasBytes xs → IsBytes m (keys xs)
unfolding Holds
Holds-IsBytes m [] h b = tt
Holds-IsBytes m ((k, vs) ∷ xs) (hk, h) ((bk, bvs), b) =
    (bk, subst (λ o. All (All IsByte) (value_or [] o)) (sym hk) bvs, Holds-IsBytes m xs h b)

kept-HasBytes : (m : Values) → HasBytes m → HasBytes (kept m)
unfolding kept cons_kept
kept-HasBytes [] b = tt
kept-HasBytes ((k, []) ∷ m) (bk, b) = kept-HasBytes m b
kept-HasBytes ((k, v ∷ vs) ∷ m) (bk, b) = (bk, kept-HasBytes m b)

place-HasBytes :
    (k : Bytes) (vs : List Bytes) (m : Values)
    → All IsByte k × All (All IsByte) vs
    → HasBytes m
    → HasBytes (place k vs m)
unfolding place
place-HasBytes k vs [] bk b = (bk, tt)
place-HasBytes k vs ((j, ws) ∷ m) bk (bj, b) = elim (Bool-cases (text_leb k j)) [
  | inl t ↦ rw t (bk, (bj, b))
  | inr f ↦ rw f (bj, place-HasBytes k vs m bk b)
]

arrange-HasBytes : (m : Values) → HasBytes m → HasBytes (arrange m)
unfolding arrange
arrange-HasBytes [] b = tt
arrange-HasBytes ((k, vs) ∷ m) (bk, b) = place-HasBytes k vs (arrange m) bk (arrange-HasBytes m b)

-- What is kept of the arranged settings is the form.
Same-settings : (m : Values) → NodupKeys m → Same (settings m) (kept (arrange m))
Same-settings m u k =
    lookup-settings k m u
    ∙ ap filled (sym (lookup-arrange k m u))
    ∙ sym (lookup-kept k (arrange m) (arrange-NodupKeys m u))

sorted_keys_lem :
    (m : Values) → NodupKeys m → sort_strings (keys (settings m)) ≡ keys (kept (arrange m))
sorted_keys_lem m u =
    sort_strings-keys (settings m) (kept (arrange m)) (settings-NodupKeys m)
      (kept-NodupKeys (arrange m) (arrange-NodupKeys m u)) (λ k. ap held (Same-settings m u k))
    ∙ sort_strings_ascending (keys (kept (arrange m))) (
        kept-IsAscending (arrange m)
          (subst IsAscending (sym (keys-arrange m)) (sort_strings-IsAscending (keys m))))

settings-Holds : (m : Values) → NodupKeys m → Holds (settings m) (kept (arrange m))
unfolding Holds
settings-Holds m u =
    All-weaken _ _ (λ p q. Same-settings m u p.0 ∙ q) (kept (arrange m))
      (NodupKeys-Holds (kept (arrange m)) (kept-NodupKeys (arrange m) (arrange-NodupKeys m u)))

-- The pairs of the form are the settings that are given, in ascending order.
pub pairs_of-settings : (m : Values) → NodupKeys m → pairs_of (settings m) ≡ flat (arrange m)
pairs_of-settings m u =
    ap (key_pairs (settings m)) (sorted_keys_lem m u)
    ∙ key_pairs-Holds (settings m) (kept (arrange m)) (settings-Holds m u)
    ∙ flat-kept (arrange m)

pub settings-IsBytes :
    (m : Values)
    → NodupKeys m
    → HasBytes m
    → IsBytes (settings m) (sort_strings (keys (settings m)))
settings-IsBytes m u b = subst (IsBytes (settings m)) (sym (sorted_keys_lem m u)) (
    Holds-IsBytes (settings m) (kept (arrange m)) (settings-Holds m u)
      (kept-HasBytes (arrange m) (arrange-HasBytes m b)))
