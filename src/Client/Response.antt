-- ===== src/Client/Response.antt =====
-- client.go: `readBodyLimited`, `unwrapResponse`, `errorFromResponse`, `truncateForMessage` and
-- `handleResponse`; errors.go: `APIErrorDetail.UnmarshalJSON`.
pub mod Laws
pub mod Unwrap
pub mod Success
use hrobot_go.Base.{
  ℕ, zero, suc, ◌+◌, ◌-◌, ◌≡◌, Bool, true, false, not, ◌&&◌, ◌||◌, List, [], ◌∷◌, ◌++◌, map, Bytes,
  codes, ltb, leb, ◌==◌, if◌then◌else◌, length, take, ℤ, pos, negsuc, wrap64, max_int, itoa, Option,
  none, some, bytes_eq, lookup,
}
use hrobot_go.Errors.{
  GoError, nil, error, wrapped, other, Result, ok, fail, ◌>>=◌, ◌>>◌, err_unknown,
  new_network_error, new_parse_error, new_api_error_with_status,
}
use hrobot_go.Client.World.{Body, Response}
use hrobot_go.Client.Utf8.{to_valid_utf8}
use hrobot_go.Client.Json.{Json, Members, RawDetail, Decoder}

abbrev pub max_error_body_bytes : ℕ
max_error_body_bytes = 1024

-- The error behind the content, where reading comes to it.
abbrev ended : Bytes → GoError → Result Bytes
ended content nil = ok content
ended content e = fail (new_network_error (codes "failed to read response body") e)

-- `io.ReadAll(io.LimitReader(r, budget))`, which looks no further than the budget.
read_all_limited : ℕ → Body → Result Bytes
read_all_limited budget body =
    if leb budget (length body.content)
    then ok (take budget body.content)
    else ended body.content body.read_error

-- `limit + 1` in 64 bits, or the largest integer where that is negative.
probe : ℕ → ℕ
probe limit = elim (wrap64 (pos (limit + 1))) [ pos n ↦ n | negsuc n ↦ max_int ]

within : ℕ → Bytes → Result Bytes
within limit payload =
    if ltb limit (length payload)
    then fail (
        new_parse_error
          (codes "response body exceeds the "
            ++ (itoa limit
                ++ codes
                    " byte limit; raise it with WithMaxResponseBytes if the response is legitimate"))
          nil)
    else ok payload

unfoldable pub read_body_limited : ℕ → Body → Result Bytes
unfolding probe read_all_limited within wrap64
read_body_limited limit body = read_all_limited (probe limit) body >>= within limit

-- `len(v) > 0 && (v[0] == '{' || v[0] == '[')`.
abbrev pub is_container : Bytes → Bool
is_container [] = false
is_container (c ∷ v) = c == b'{' || c == b'['

is_empty_text : Bytes → Bool
is_empty_text [] = true
is_empty_text (c ∷ s) = false

-- The loop over the elements that finds `commonKey`, or none where the data is returned as it is.
common_key : List Members → Bytes → Option Bytes
common_key [] key = some key
common_key (((k, v) ∷ []) ∷ arr) key =
    if not (is_container v)
    then none
    else if is_empty_text key || bytes_eq k key
    then common_key arr k
    else none
common_key (item ∷ arr) key = none

-- `item[commonKey]`, which is nil where the key is missing.
abbrev pub item_at : Bytes → Members → Bytes
item_at key item = elim (lookup key item) [ none ↦ [] | some v ↦ v ]

abbrev pub items_at : Bytes → List Members → List Bytes
items_at key [] = []
items_at key (item ∷ arr) = item_at key item ∷ items_at key arr

unfoldable pub truncate_for_message : Bytes → Bytes
unfolding to_valid_utf8
truncate_for_message body =
    if leb (length body) max_error_body_bytes
    then to_valid_utf8 body
    else to_valid_utf8 (take max_error_body_bytes body)
      ++ (codes "... (" ++ (itoa (length body - max_error_body_bytes) ++ codes " bytes truncated)"))

module _ (J : Json) where
  unwrap_items : Bytes → List Members → Option Bytes → Result Bytes
  unwrap_items payload arr none = ok payload
  unwrap_items payload arr (some key) = J.marshal_raws (items_at key arr)

  unwrap_array : Bytes → List Members → Result Bytes
  unwrap_array payload [] = ok payload
  unwrap_array payload (item ∷ arr) = unwrap_items payload (item ∷ arr) (common_key (item ∷ arr) [])

  unwrap_members : Bytes → Members → Result Bytes
  unwrap_members payload ((k, v) ∷ []) =
      if bytes_eq k (codes "id") || not (is_container v) then ok payload else ok v
  unwrap_members payload top = ok payload

  unfoldable pub unwrap_response : Bytes → Result Bytes
  unfolding unwrap_array unwrap_items unwrap_members common_key is_empty_text lookup bytes_eq
  unwrap_response [] = ok []
  unwrap_response (c ∷ s) =
      if c == b'['
      then unwrap_array (c ∷ s) (J.unmarshal_array (c ∷ s))
      else if c == b'{'
      then J.unmarshal_object (c ∷ s) >>= unwrap_members (c ∷ s)
      else ok (c ∷ s)

  code_of : Result Bytes → Bytes
  code_of (ok code) = code
  code_of (fail e) = err_unknown

  -- `APIErrorDetail.UnmarshalJSON`.
  unmarshal_detail : Bytes → Result RawDetail
  unmarshal_detail payload =
      J.unmarshal_detail payload
      >>= (λ d. ok (record d { code = code_of (J.unmarshal_string d.code) }))

  abbrev zero_detail : RawDetail
  zero_detail = record { status = pos 0; code = []; message = [] }

  detail_at : Option Bytes → Result RawDetail
  detail_at none = ok zero_detail
  detail_at (some text) = unmarshal_detail text

  status_or : ℕ → ℤ → ℤ
  status_or code (pos zero) = pos code
  status_or code status = status

  error_of : ℕ → Bytes → Result RawDetail → GoError
  error_of status_code body (ok d) =
      new_api_error_with_status d.code d.message (status_or status_code d.status)
  error_of status_code body (fail e) =
      new_api_error_with_status err_unknown
        (codes "HTTP " ++ (itoa status_code ++ (codes ": " ++ truncate_for_message body)))
        (pos status_code)

  unfoldable pub error_from_response : ℕ → Bytes → GoError
  unfolding error_of status_or detail_at unmarshal_detail code_of truncate_for_message
  error_from_response status_code body =
      error_of status_code body (J.unmarshal_envelope body >>= detail_at)

  abbrev pub or_parse_error {ℓ} : {A : Type ℓ} → Bytes → Result A → Result A
  or_parse_error message (ok a) = ok a
  or_parse_error message (fail e) = fail (new_parse_error message e)

  decode_body {ℓ} : {A : Type ℓ} → Decoder A → ℕ → Bytes → Result A
  decode_body D status body =
      if status == 204 || is_empty_text body
      then ok D.zero_value
      else or_parse_error (codes "failed to unwrap response") (unwrap_response body)
        >>= (λ unwrapped.
            or_parse_error (codes "failed to unmarshal response") (D.unmarshal unwrapped))

  handle_body {ℓ} : {A : Type ℓ} → Decoder A → ℕ → Bytes → Result A
  handle_body D status body =
      if ltb status 200 || leb 300 status
      then fail (error_from_response status body)
      else decode_body D status body

  -- `v` is the variable that the decoder stands for; it starts from its zero value.
  unfoldable pub handle_response {ℓ} : {A : Type ℓ} → Decoder A → ℕ → Response → Result A
  unfolding read_body_limited handle_body decode_body error_from_response is_empty_text
      unwrap_response
  handle_response D limit resp =
      read_body_limited limit resp.body >>= handle_body D resp.status_code
