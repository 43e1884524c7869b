-- ===== src/Url/Query.antt =====
-- `url.ParseQuery`: how a server reads a form body.
use hrobot_go.Base.{
  ℕ, ◌≡◌, ◌≢◌, refl, Bool, true, false, List, [], ◌∷◌, ◌++◌, Option, some, arith, Bytes, codes,
  if◌then◌else◌, All, All-append, All-weaken, Lacks, contains_byte, contains_byte-Lacks, cut,
  cut-append, split, join, split-join,
}
use hrobot_go.Url.Escape.{
  query_escape, query_unescape, unescape-query_escape, unescape-plain, query_escape-IsQueryByte,
  IsByte,
}

-- What `ParseQuery` returns: the pairs in order (the map groups them by key), and whether any
-- pair was refused.
pub record Query : Type 0 where
  pub pairs : List (Bytes × Bytes)
  pub failed : Bool

abbrev refuse : Query → Query
refuse q = record q { failed = true }

abbrev accept : Option Bytes → Option Bytes → Query → Query
accept (some k) (some v) q = record q { pairs = (k, v) ∷ q.pairs }
accept _ _ q = refuse q

parse_part : Bytes → Query → Query
parse_part [] q = q
parse_part (c ∷ s) q =
    if contains_byte b';' (c ∷ s)
    then refuse q
    else accept (query_unescape (cut b'=' (c ∷ s)).0) (query_unescape (cut b'=' (c ∷ s)).1) q

parse_parts : List Bytes → Query
parse_parts [] = record { pairs = []; failed = false }
parse_parts (p ∷ ps) = parse_part p (parse_parts ps)

unfoldable pub parse_query : Bytes → Query
unfolding parse_part parse_parts query_unescape cut split contains_byte
parse_query s = parse_parts (split b'&' s)

-- The text `t` is one part of a form body, and reads as the key `k` with the value `v`.
pub record Encodes (t k v : Bytes) : Type 0 where
  pub no_amp : Lacks b'&' t
  pub no_semi : Lacks b';' t
  pub filled : t ≢ []
  pub reads_key : query_unescape (cut b'=' t).0 ≡ some k
  pub reads_value : query_unescape (cut b'=' t).1 ≡ some v

abbrev pub AllEncode : List Bytes → List (Bytes × Bytes) → Type 0
AllEncode [] [] = Unit
AllEncode (t ∷ ts) ((k, v) ∷ kvs) = Encodes t k v × AllEncode ts kvs
AllEncode _ _ = ⊥

pub AllEncode-append :
    (ts us : List Bytes) (ks ls : List (Bytes × Bytes))
    → AllEncode ts ks
    → AllEncode us ls
    → AllEncode (ts ++ us) (ks ++ ls)
AllEncode-append [] us [] ls h k = k
AllEncode-append [] us (_ ∷ ks) ls h k = absurd h
AllEncode-append (t ∷ ts) us [] ls h k = absurd h
AllEncode-append (t ∷ ts) us (_ ∷ ks) ls (h, hs) k = (h, AllEncode-append ts us ks ls hs k)

parse_part-Encodes :
    (t k v : Bytes) (q : Query)
    → Encodes t k v
    → parse_part t q ≡ record q { pairs = (k, v) ∷ q.pairs }
unfolding parse_part
parse_part-Encodes [] k v q e = absurd (e.filled refl)
parse_part-Encodes (c ∷ s) k v q e =
    rw (contains_byte-Lacks b';' (c ∷ s) e.no_semi) (rw (e.reads_key, e.reads_value))

parse_parts-AllEncode :
    (ts : List Bytes) (kvs : List (Bytes × Bytes))
    → AllEncode ts kvs
    → parse_parts ts ≡ record { pairs = kvs; failed = false }
unfolding parse_parts
parse_parts-AllEncode [] [] h = refl
parse_parts-AllEncode [] (_ ∷ kvs) h = absurd h
parse_parts-AllEncode (t ∷ ts) [] h = absurd h
parse_parts-AllEncode (t ∷ ts) ((k, v) ∷ kvs) (h, hs) =
    rw (parse_parts-AllEncode ts kvs hs) (parse_part-Encodes t k v _ h)

no_amps : (ts : List Bytes) (kvs : List (Bytes × Bytes)) → AllEncode ts kvs → All (Lacks b'&') ts
no_amps [] kvs h = tt
no_amps (t ∷ ts) [] h = absurd h
no_amps (t ∷ ts) (_ ∷ kvs) (h, hs) = (h.no_amp, no_amps ts kvs hs)

-- A body of such parts, joined by `&`, reads as the list of their pairs.
pub parse_query-join :
    (ts : List Bytes) (kvs : List (Bytes × Bytes))
    → AllEncode ts kvs
    → parse_query (join (codes "&") ts) ≡ record { pairs = kvs; failed = false }
unfolding parse_query
parse_query-join [] [] h = unfold join in refl
parse_query-join [] (_ ∷ kvs) h = absurd h
parse_query-join (t ∷ ts) [] h = absurd h
parse_query-join (t ∷ ts) (kv ∷ kvs) (h, hs) =
    rw (split-join b'&' t ts h.no_amp (no_amps ts kvs hs))
      (parse_parts-AllEncode (t ∷ ts) (kv ∷ kvs) (h, hs))

-- A key that is written without escaping.
abbrev pub IsKeyByte : ℕ → Type 0
IsKeyByte c = (c ≢ b'&') × (c ≢ b';') × (c ≢ b'=') × (c ≢ b'%') × (c ≢ b'+')

-- `key=value`, with the value escaped.
abbrev pub pair : Bytes → Bytes → Bytes
pair k v = k ++ b'=' ∷ query_escape v

append-ne-nil : (k v : Bytes) → (k ++ b'=' ∷ v) ≢ []
append-ne-nil [] v = λ h. cc
append-ne-nil (c ∷ k) v = λ h. cc

escaped-Encodes :
    (k k' v : Bytes)
    → All (λ c. (c ≢ b'&') × (c ≢ b';') × (c ≢ b'=')) k
    → query_unescape k ≡ some k'
    → All IsByte v
    → Encodes (pair k v) k' v
escaped-Encodes k k' v hk reads hv =
    let escaped = query_escape-IsQueryByte v hv in
    let halves = cut-append b'=' k (query_escape v) (All-weaken _ _ (λ c h. h.2) k hk) in
    record {
      no_amp =
          All-append _ k _ (All-weaken _ _ (λ c h. h.0) k hk)
            (omega arith, All-weaken _ _ (λ c h. h.0) (query_escape v) escaped);
      no_semi =
          All-append _ k _ (All-weaken _ _ (λ c h. h.1) k hk)
            (omega arith, All-weaken _ _ (λ c h. h.2) (query_escape v) escaped);
      filled = append-ne-nil k (query_escape v);
      reads_key = rw halves reads;
      reads_value = rw halves (unescape-query_escape v hv);
    }

pub pair-Encodes : (k v : Bytes) → All IsKeyByte k → All IsByte v → Encodes (pair k v) k v
pair-Encodes k v hk hv =
    escaped-Encodes k k v (All-weaken _ _ (λ c h. (h.0, h.1, h.2)) k hk)
      (unescape-plain k (All-weaken _ _ (λ c h. (h.3, h.4)) k hk)) hv

pub pair-query_escape-Encodes :
    (k v : Bytes) → All IsByte k → All IsByte v → Encodes (pair (query_escape k) v) k v
pair-query_escape-Encodes k v hk hv =
    escaped-Encodes (query_escape k) k v
      (All-weaken _ _ (λ c h. (h.0, h.2, h.1)) (query_escape k) (query_escape-IsQueryByte k hk))
      (unescape-query_escape k hk) hv
