-- ===== src/Url/Escape.antt =====
-- `url.QueryEscape`, `url.PathEscape` and `url.QueryUnescape`, over bytes.
use hrobot_go.Base.{
  ℕ, ◌+◌, ◌-◌, ◌*◌, ◌/◌, ◌%◌, ◌<◌, ◌≡◌, ◌≢◌, refl, Bool, ◌&&◌, ◌||◌, [], ◌∷◌, Option, none, some,
  arith, Bytes, ltb, leb, ◌==◌, if◌then◌else◌, All,
}

abbrev pub IsByte : ℕ → Type 0
IsByte c = c < 256

-- The unreserved characters of RFC 3986, which both modes keep.
unfoldable pub is_unreserved : ℕ → Bool
is_unreserved c =
    (leb b'a' c && leb c b'z')
    || (leb b'A' c && leb c b'Z')
    || (leb b'0' c && leb c b'9')
    || c == b'-'
    || c == b'_'
    || c == b'.'
    || c == b'~'

unfoldable pub hex_digit : ℕ → ℕ
hex_digit d = if ltb d 10 then b'0' + d else b'A' + d - 10

abbrev pub percent : ℕ → Bytes → Bytes
percent c s = b'%' ∷ hex_digit (c / 16) ∷ hex_digit (c % 16) ∷ s

unfoldable pub query_escape : Bytes → Bytes
unfolding is_unreserved hex_digit
query_escape [] = []
query_escape (c ∷ s) =
    let rest = query_escape s in
    if is_unreserved c then c ∷ rest else if c == b' ' then b'+' ∷ rest else percent c rest

-- A path segment keeps `$ & + : = @` too.
unfoldable pub path_keeps : ℕ → Bool
path_keeps c =
    is_unreserved c || c == b'$' || c == b'&' || c == b'+' || c == b':' || c == b'=' || c == b'@'

unfoldable pub path_escape : Bytes → Bytes
unfolding path_keeps is_unreserved hex_digit
path_escape [] = []
path_escape (c ∷ s) = let rest = path_escape s in if path_keeps c then c ∷ rest else percent c rest

unfoldable pub unhex : ℕ → Option ℕ
unhex c =
    if leb b'0' c && leb c b'9'
    then some (c - b'0')
    else if leb b'a' c && leb c b'f'
    then some (c - b'a' + 10)
    else if leb b'A' c && leb c b'F'
    then some (c - b'A' + 10)
    else none

abbrev pub join_hex : Option ℕ → Option ℕ → Option ℕ
join_hex (some a) (some b) = some (a * 16 + b)
join_hex _ _ = none

abbrev pub cons_some : Option ℕ → Option Bytes → Option Bytes
cons_some (some c) (some s) = some (c ∷ s)
cons_some _ _ = none

-- `none` is an `EscapeError`: a `%` that two hexadecimal digits do not follow.
unfoldable pub query_unescape : Bytes → Option Bytes
unfolding unhex
query_unescape [] = some []
query_unescape (c ∷ []) = if c == b'%' then none else some ((if c == b'+' then b' ' else c) ∷ [])
query_unescape (c ∷ d ∷ []) =
    let rest = query_unescape (d ∷ []) in
    if c == b'%' then none else cons_some (some (if c == b'+' then b' ' else c)) rest
query_unescape (c ∷ d ∷ e ∷ s) =
    let plain = query_unescape (d ∷ e ∷ s) in
    let coded = query_unescape s in
    if c == b'%'
    then cons_some (join_hex (unhex d) (unhex e)) coded
    else cons_some (some (if c == b'+' then b' ' else c)) plain

unescape_plain :
    (c : ℕ) (s : Bytes)
    → c ≢ b'%'
    → query_unescape (c ∷ s) ≡ cons_some (some (if c == b'+' then b' ' else c)) (query_unescape s)
unfolding query_unescape
unescape_plain c [] h = ground arith
unescape_plain c (d ∷ []) h = ground arith
unescape_plain c (d ∷ e ∷ s) h = ground arith

unescape_percent :
    (c : ℕ) (s : Bytes)
    → IsByte c
    → query_unescape (percent c s) ≡ cons_some (some c) (query_unescape s)
unfolding query_unescape unhex hex_digit
unescape_percent c s h = ground arith

-- A text of plain bytes is its own decoding.
abbrev pub IsPlain : ℕ → Type 0
IsPlain c = (c ≢ b'%') × (c ≢ b'+')

pub unescape-plain : (s : Bytes) → All IsPlain s → query_unescape s ≡ some s
unescape-plain [] h = unfold query_unescape in refl
unescape-plain (c ∷ s) (hc, hs) =
    rw (unescape_plain c s hc.0) (rw (unescape-plain s hs) (ground arith))

query_escape_step :
    (c : ℕ) (s : Bytes)
    → IsByte c
    → query_unescape (query_escape (c ∷ s)) ≡ cons_some (some c) (query_unescape (query_escape s))
unfolding query_escape is_unreserved
query_escape_step c s h = ground (
  arith,
  unescape_percent c (query_escape s) h,
  unescape_plain c (query_escape s),
  unescape_plain b'+' (query_escape s),
)

-- Decoding undoes escaping, for every byte string.
pub unescape-query_escape : (s : Bytes) → All IsByte s → query_unescape (query_escape s) ≡ some s
unescape-query_escape [] h = unfold query_unescape query_escape in refl
unescape-query_escape (c ∷ s) (hc, hs) =
    rw (query_escape_step c s hc) (rw (unescape-query_escape s hs))

-- What an escaped text can be made of.
abbrev pub IsQueryByte : ℕ → Type 0
IsQueryByte c = (c ≢ b'&') × (c ≢ b'=') × (c ≢ b';') × (c ≢ b'#') × (c ≢ b'[')

hex_digit-IsQueryByte : (d : ℕ) → d < 16 → IsQueryByte (hex_digit d)
unfolding hex_digit
hex_digit-IsQueryByte d h = ground arith

-- Escaped text holds none of the characters that structure a form body.
pub query_escape-IsQueryByte : (s : Bytes) → All IsByte s → All IsQueryByte (query_escape s)
query_escape-IsQueryByte [] h = unfold query_escape in tt
query_escape-IsQueryByte (c ∷ s) (hc, hs) = step c s hc (query_escape-IsQueryByte s hs)
  where
    step :
        (c : ℕ) (s : Bytes)
        → IsByte c
        → All IsQueryByte (query_escape s)
        → All IsQueryByte (query_escape (c ∷ s))
    step c s h ih =
        unfold query_escape is_unreserved in
        ground (arith, hex_digit-IsQueryByte (c / 16), hex_digit-IsQueryByte (c % 16))

-- What a path segment may hold: nothing that ends the segment, the path or the URL.
abbrev pub IsSegmentByte : ℕ → Type 0
IsSegmentByte c = (c ≢ b'/') × (c ≢ b'?') × (c ≢ b'#') × (c ≢ b' ')

hex_digit-IsSegmentByte : (d : ℕ) → d < 16 → IsSegmentByte (hex_digit d)
unfolding hex_digit
hex_digit-IsSegmentByte d h = ground arith

pub path_escape-IsSegmentByte : (s : Bytes) → All IsByte s → All IsSegmentByte (path_escape s)
path_escape-IsSegmentByte [] h = unfold path_escape in tt
path_escape-IsSegmentByte (c ∷ s) (hc, hs) = step c s hc (path_escape-IsSegmentByte s hs)
  where
    step :
        (c : ℕ) (s : Bytes)
        → IsByte c
        → All IsSegmentByte (path_escape s)
        → All IsSegmentByte (path_escape (c ∷ s))
    step c s h ih =
        unfold path_escape path_keeps is_unreserved in
        ground (arith, hex_digit-IsSegmentByte (c / 16), hex_digit-IsSegmentByte (c % 16))
