-- ===== src/Client/Response/Unwrap.antt =====
-- The envelopes that `unwrapResponse` takes off a list.
use hrobot_go.Base.{
  ◌≡◌, ◌≢◌, refl, ap, ap₂, true, false, List, [], ◌∷◌, map, Bytes, some, bytes_eq_iff, lookup, All,
  arith,
}
use hrobot_go.Client.Json.{Json, Members}
use hrobot_go.Client.Response.{
  is_container, common_key, item_at, items_at, is_empty_text, unwrap_response, unwrap_array,
  unwrap_items,
}

-- `{"key": v}`.
abbrev pub wrap : Bytes → Bytes → Members
wrap key v = (key, v) ∷ []

abbrev pub IsContainer : Bytes → Type 0
IsContainer v = is_container v ≡ true

is_empty_text_ne : (s : Bytes) → s ≢ [] → is_empty_text s ≡ false
unfolding is_empty_text
is_empty_text_ne [] h = absurd (h refl)
is_empty_text_ne (c ∷ s) h = refl

item_at-wrap : (key v : Bytes) → item_at key (wrap key v) ≡ v
unfolding lookup
item_at-wrap key v = ground (arith, bytes_eq_iff key key)

items_at-wrap : (key : Bytes) (vs : List Bytes) → items_at key (map (wrap key) vs) ≡ vs
items_at-wrap key [] = refl
items_at-wrap key (v ∷ vs) = ap₂ (λ x l. x ∷ l) (item_at-wrap key v) (items_at-wrap key vs)

common_key-wrap :
    (key : Bytes) (vs : List Bytes)
    → All IsContainer vs
    → common_key (map (wrap key) vs) key ≡ some key
unfolding common_key
common_key-wrap key [] h = refl
common_key-wrap key (v ∷ vs) (hv, hvs) =
    ground (arith, common_key-wrap key vs hvs, (bytes_eq_iff key key).1 refl)

common_key-first :
    (key v : Bytes) (vs : List Bytes)
    → All IsContainer (v ∷ vs)
    → common_key (map (wrap key) (v ∷ vs)) [] ≡ some key
unfolding common_key is_empty_text
common_key-first key v vs (hv, hvs) = ground (arith, common_key-wrap key vs hvs)

module _ (J : Json) where
  -- A list whose elements all wrap a container under one key gives the list of what they wrap.
  pub unwrap_response-wrapped :
      (s key v : Bytes) (vs : List Bytes)
      → All IsContainer (v ∷ vs)
      → J.unmarshal_array (b'[' ∷ s) ≡ map (wrap key) (v ∷ vs)
      → unwrap_response J (b'[' ∷ s) ≡ J.marshal_raws (v ∷ vs)
  unfolding unwrap_response unwrap_array unwrap_items
  unwrap_response-wrapped s key v vs h p =
      rw p (rw (common_key-first key v vs h) (ap J.marshal_raws (items_at-wrap key (v ∷ vs))))

  -- The keys of a list of objects are not empty texts.
  abbrev pub HasKeys : Members → Type 0
  HasKeys [] = Unit
  HasKeys ((k, v) ∷ item) = (k ≢ []) × HasKeys item
