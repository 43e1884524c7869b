-- ===== src/Url/Path.antt =====
-- `url.PathUnescape`, and how a server reads the path of a request: its segments, each decoded.
use hrobot_go.Base.{
  ℕ, suc, ◌≡◌, ◌≢◌, refl, ap, ap₂, ◌∙◌, List, [], ◌∷◌, Option, none, some, arith, Bytes, codes,
  ◌==◌, if◌then◌else◌, All, All-weaken, Lacks, IsDigit, split, join, split-join, itoa_int, itoa,
  itoa-IsDigit, ℤ, pos, negsuc,
}
use hrobot_go.Url.Escape.{
  IsByte, path_escape, path_escape-IsSegmentByte, path_keeps, is_unreserved, hex_digit, unhex,
  percent, join_hex, cons_some,
}

unfoldable pub path_unescape : Bytes → Option Bytes
unfolding unhex
path_unescape [] = some []
path_unescape (c ∷ []) = if c == b'%' then none else some (c ∷ [])
path_unescape (c ∷ d ∷ []) =
    let rest = path_unescape (d ∷ []) in if c == b'%' then none else cons_some (some c) rest
path_unescape (c ∷ d ∷ e ∷ s) =
    let plain = path_unescape (d ∷ e ∷ s) in
    let coded = path_unescape s in
    if c == b'%' then cons_some (join_hex (unhex d) (unhex e)) coded else cons_some (some c) plain

unescape_plain :
    (c : ℕ) (s : Bytes) → c ≢ b'%' → path_unescape (c ∷ s) ≡ cons_some (some c) (path_unescape s)
unfolding path_unescape
unescape_plain c [] h = ground arith
unescape_plain c (d ∷ []) h = ground arith
unescape_plain c (d ∷ e ∷ s) h = ground arith

unescape_percent :
    (c : ℕ) (s : Bytes)
    → IsByte c
    → path_unescape (percent c s) ≡ cons_some (some c) (path_unescape s)
unfolding path_unescape unhex hex_digit
unescape_percent c s h = ground arith

path_escape_step :
    (c : ℕ) (s : Bytes)
    → IsByte c
    → path_unescape (path_escape (c ∷ s)) ≡ cons_some (some c) (path_unescape (path_escape s))
unfolding path_escape path_keeps is_unreserved
path_escape_step c s h =
    ground (arith, unescape_percent c (path_escape s) h, unescape_plain c (path_escape s))

-- Decoding undoes escaping, for every byte string.
pub unescape-path_escape : (s : Bytes) → All IsByte s → path_unescape (path_escape s) ≡ some s
unescape-path_escape [] h = unfold path_unescape path_escape in refl
unescape-path_escape (c ∷ s) (hc, hs) =
    rw (path_escape_step c s hc) (rw (unescape-path_escape s hs))

-- A byte that stands for itself in a segment.
abbrev pub IsSelf : ℕ → Type 0
IsSelf c = (c ≢ b'%') × (c ≢ b'/')

unescape_self : (s : Bytes) → All IsSelf s → path_unescape s ≡ some s
unescape_self [] h = unfold path_unescape in refl
unescape_self (c ∷ s) (hc, hs) = rw (unescape_plain c s hc.0) (rw (unescape_self s hs))

abbrev cons_read : Option Bytes → Option (List Bytes) → Option (List Bytes)
cons_read (some s) (some ss) = some (s ∷ ss)
cons_read _ _ = none

unescape_all : List Bytes → Option (List Bytes)
unescape_all [] = some []
unescape_all (t ∷ ts) = cons_read (path_unescape t) (unescape_all ts)

-- The segments behind the first slash.
rooted : List Bytes → Option (List Bytes)
rooted ([] ∷ ts) = unescape_all ts
rooted ts = none

-- The segments that a path names.
unfoldable pub read_path : Bytes → Option (List Bytes)
unfolding rooted unescape_all path_unescape split
read_path path = rooted (split b'/' path)

-- A piece of a path that is one segment, and is read as `s`.
abbrev pub Reads : Bytes → Bytes → Type 0
Reads t s = Lacks b'/' t × (path_unescape t ≡ some s)

abbrev pub AllReads : List Bytes → List Bytes → Type 0
AllReads [] [] = Unit
AllReads (t ∷ ts) (s ∷ ss) = Reads t s × AllReads ts ss
AllReads _ _ = ⊥

pub path_escape-Reads : (s : Bytes) → All IsByte s → Reads (path_escape s) s
path_escape-Reads s h = (
  All-weaken _ _ (λ c h. h.0) (path_escape s) (path_escape-IsSegmentByte s h),
  unescape-path_escape s h,
)

pub self-Reads : (s : Bytes) → All IsSelf s → Reads s s
self-Reads s h = (All-weaken _ _ (λ c h. h.1) s h, unescape_self s h)

digits-IsSelf : (n : ℕ) → All IsSelf (itoa n)
digits-IsSelf n = All-weaken IsDigit IsSelf (λ c h. omega (arith, h)) (itoa n) (itoa-IsDigit n)

pub itoa_int-Reads : (n : ℤ) → Reads (itoa_int n) (itoa_int n)
itoa_int-Reads n = self-Reads (itoa_int n) (go n)
  where
    go : (n : ℤ) → All IsSelf (itoa_int n)
    go (pos n) = unfold itoa_int in digits-IsSelf n
    go (negsuc n) = unfold itoa_int in (ground arith, digits-IsSelf (suc n))

AllReads-Lacks : (ts ss : List Bytes) → AllReads ts ss → All (Lacks b'/') ts
AllReads-Lacks [] ss h = tt
AllReads-Lacks (t ∷ ts) [] h = absurd h
AllReads-Lacks (t ∷ ts) (s ∷ ss) (h, hs) = (h.0, AllReads-Lacks ts ss hs)

unescape_all-Reads : (ts ss : List Bytes) → AllReads ts ss → unescape_all ts ≡ some ss
unfolding unescape_all
unescape_all-Reads [] [] h = refl
unescape_all-Reads [] (s ∷ ss) h = absurd h
unescape_all-Reads (t ∷ ts) [] h = absurd h
unescape_all-Reads (t ∷ ts) (s ∷ ss) (h, hs) = ap₂ cons_read h.1 (unescape_all-Reads ts ss hs)

-- A path of pieces that are one segment each is read as those segments.
pub read_path-join :
    (ts ss : List Bytes) → AllReads ts ss → read_path (join (codes "/") ([] ∷ ts)) ≡ some ss
unfolding read_path rooted
read_path-join ts ss h =
    ap rooted (split-join b'/' [] ts tt (AllReads-Lacks ts ss h)) ∙ unescape_all-Reads ts ss h
