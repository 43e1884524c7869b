-- ===== src/Url/Values.antt =====
-- `url.Values`: form values by key, and `Encode`.
use hrobot_go.Base.{
  ◌≡◌, refl, false, List, [], ◌∷◌, ◌++◌, Bytes, codes, All, join, Map, keys, lookup, insert, get_or,
  sort_strings, NodupKeys, Same, sort_strings-keys, map, ap, ap₂, held, value_or, ◌∙◌, text_leb,
}
use hrobot_go.Url.Escape.{query_escape, IsByte}
use hrobot_go.Url.Query.{
  parse_query, pair, AllEncode, AllEncode-append, pair-query_escape-Encodes, parse_query-join,
}

abbrev pub Values : Type 0
Values = Map (List Bytes)

-- `v.Set(key, value)` replaces the values of the key.
unfoldable pub set : Bytes → Bytes → Values → Values
unfolding insert
set k v m = insert k (v ∷ []) m

-- `v.Add(key, value)` appends to them.
unfoldable pub add : Bytes → Bytes → Values → Values
unfolding insert lookup
add k v m = insert k (get_or k [] m ++ (v ∷ [])) m

value_parts : Bytes → List Bytes → List Bytes
value_parts k [] = []
value_parts k (v ∷ vs) = pair (query_escape k) v ∷ value_parts k vs

key_parts : Values → List Bytes → List Bytes
key_parts m [] = []
key_parts m (k ∷ ks) = value_parts k (get_or k [] m) ++ key_parts m ks

-- `v.Encode()`: the keys in ascending order, the values of a key in their own order.
unfoldable pub encode : Values → Bytes
unfolding value_parts key_parts query_escape sort_strings text_leb join lookup
encode m = join (codes "&") (key_parts m (sort_strings (keys m)))

-- The pairs that the values stand for, in the order of `Encode`.
abbrev pub value_pairs : Bytes → List Bytes → List (Bytes × Bytes)
value_pairs k vs = map (λ v. (k, v)) vs

abbrev pub key_pairs : Values → List Bytes → List (Bytes × Bytes)
key_pairs m [] = []
key_pairs m (k ∷ ks) = value_pairs k (get_or k [] m) ++ key_pairs m ks

abbrev pub pairs_of : Values → List (Bytes × Bytes)
pairs_of m = key_pairs m (sort_strings (keys m))

-- Every key and every value is a byte string.
abbrev pub IsBytes : Values → List Bytes → Type 0
IsBytes m [] = Unit
IsBytes m (k ∷ ks) = All IsByte k × All (All IsByte) (get_or k [] m) × IsBytes m ks

value_parts-AllEncode :
    (k : Bytes) (vs : List Bytes)
    → All IsByte k
    → All (All IsByte) vs
    → AllEncode (value_parts k vs) (value_pairs k vs)
unfolding value_parts
value_parts-AllEncode k [] hk hv = tt
value_parts-AllEncode k (v ∷ vs) hk (hv, hvs) =
    (pair-query_escape-Encodes k v hk hv, value_parts-AllEncode k vs hk hvs)

key_parts-AllEncode :
    (m : Values) (ks : List Bytes) → IsBytes m ks → AllEncode (key_parts m ks) (key_pairs m ks)
unfolding key_parts
key_parts-AllEncode m [] h = tt
key_parts-AllEncode m (k ∷ ks) h =
    AllEncode-append (value_parts k (get_or k [] m)) (key_parts m ks)
      (value_pairs k (get_or k [] m)) (key_pairs m ks)
      (value_parts-AllEncode k (get_or k [] m) h.0 h.1) (key_parts-AllEncode m ks h.2)

-- A server reads exactly the pairs that the values hold, whatever bytes they are made of.
pub parse_query-encode :
    (m : Values)
    → IsBytes m (sort_strings (keys m))
    → parse_query (encode m) ≡ record { pairs = pairs_of m; failed = false }
unfolding encode
parse_query-encode m h =
    parse_query-join (key_parts m (sort_strings (keys m))) (pairs_of m)
      (key_parts-AllEncode m (sort_strings (keys m)) h)

-- The parts that `Encode` joins.
pub encode-AllEncode :
    (m : Values)
    → IsBytes m (sort_strings (keys m))
    → (ts : List Bytes) × (encode m ≡ join (codes "&") ts) × AllEncode ts (pairs_of m)
unfolding encode
encode-AllEncode m h =
    (key_parts m (sort_strings (keys m)), refl, key_parts-AllEncode m (sort_strings (keys m)) h)

key_parts-Same : (m m' : Values) (ks : List Bytes) → Same m m' → key_parts m ks ≡ key_parts m' ks
unfolding key_parts
key_parts-Same m m' [] same = refl
key_parts-Same m m' (k ∷ ks) same =
    ap₂ (λ o rest. value_parts k (value_or [] o) ++ rest) (same k) (key_parts-Same m m' ks same)

-- The encoding depends on the map alone, not on the order in which it is iterated.
pub encode-Same : (m m' : Values) → NodupKeys m → NodupKeys m' → Same m m' → encode m ≡ encode m'
unfolding encode
encode-Same m m' u u' same =
    ap (λ ks. join (codes "&") (key_parts m ks))
      (sort_strings-keys m m' u u' (λ k. ap held (same k)))
    ∙ ap (join (codes "&")) (key_parts-Same m m' (sort_strings (keys m')) same)

two_fields :
    encode (set (codes "to") (codes "b c") (add (codes "from") (codes "a&") []))
    ≡ codes "from=a%26&to=b+c"
unfolding encode set add
two_fields = refl
