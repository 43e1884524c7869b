-- ===== src/Services/Traffic/Asks.antt =====
-- What `TrafficService.Get` asks of the service.
use hrobot_go.Base.{
  ◌≡◌, ◌≢◌, refl, sym, ap, ◌∙◌, subst, Bool, true, false, List, [], ◌∷◌, ◌++◌, append_assoc,
  append-nil, All-append, if◌then◌else◌, Bytes, codes, All, join, map, arith, insert, lookup,
  sort_strings, text_leb, keys,
}
use hrobot_go.Url.Escape.{query_escape, IsByte}
use hrobot_go.Url.Path.{read_path}
use hrobot_go.Url.Query.{
  parse_query, parse_query-join, AllEncode, AllEncode-append, pair, pair-Encodes, IsKeyByte,
}
use hrobot_go.Url.Values.{Values, set, encode-AllEncode, pairs_of, IsBytes}
use hrobot_go.Client.World.{method_post, World}
use hrobot_go.Client.Json.{Decoder}
use hrobot_go.Client.Methods
use hrobot_go.Errors.{Result, ok, fail}
use hrobot_go.Client.Methods.{Session, on_value}
use hrobot_go.Client.Sends.{Ask, Asks, New, perform-New}
use hrobot_go.Services.Traffic.{
  TrafficGetParams, RawTraffic, join_pair, append_bracket_array, all_ips, traffic_form,
  traffic_body, get, read_traffic,
}

-- The fields of a list under one key with brackets.
abbrev pub list_fields : Bytes → List Bytes → List (Bytes × Bytes)
list_fields key values = map (λ v. (key, v)) values

-- The same, as the parts of the body.
list_parts : Bytes → List Bytes → List Bytes
list_parts key [] = []
list_parts key (v ∷ values) = pair key v ∷ list_parts key values

list_parts-AllEncode :
    (key : Bytes) (values : List Bytes)
    → All IsKeyByte key
    → All (All IsByte) values
    → AllEncode (list_parts key values) (list_fields key values)
unfolding list_parts
list_parts-AllEncode key [] hk h = tt
list_parts-AllEncode key (v ∷ values) hk (hv, h) =
    (pair-Encodes key v hk hv, list_parts-AllEncode key values hk h)

join_ne_nil : (t : Bytes) (ts : List Bytes) → t ≢ [] → join (codes "&") (t ∷ ts) ≢ []
unfolding join
join_ne_nil t [] h = h
join_ne_nil [] (u ∷ ts) h = absurd (h refl)
join_ne_nil (c ∷ t) (u ∷ ts) h = λ p. cc

join_pair_ne : (s t : Bytes) → s ≢ [] → join_pair s t ≡ s ++ (codes "&" ++ t)
join_pair_ne [] t h = absurd (h refl)
join_pair_ne (c ∷ s) t h = refl

join-snoc :
    (t : Bytes) (ts : List Bytes) (u : Bytes)
    → join (codes "&") ((t ∷ ts) ++ u ∷ []) ≡ join (codes "&") (t ∷ ts) ++ (codes "&" ++ u)
unfolding join
join-snoc t [] u = refl
join-snoc t (v ∷ ts) u =
    ap (λ s. t ++ (codes "&" ++ s)) (join-snoc v ts u)
    ∙ sym (append_assoc t (codes "&" ++ join (codes "&") (v ∷ ts)) (codes "&" ++ u))

join_pair-join :
    (ts : List Bytes) (u : Bytes)
    → All (λ t. t ≢ []) ts
    → join_pair (join (codes "&") ts) u ≡ join (codes "&") (ts ++ u ∷ [])
join_pair-join [] u h = unfold join in refl
join_pair-join (t ∷ ts) u (h, hs) = join_pair_ne _ u (join_ne_nil t ts h) ∙ sym (join-snoc t ts u)

list_key : Bytes → Bytes
list_key name = name ++ codes "[]"

bracket_pair : (name v : Bytes) → name ++ (codes "[]=" ++ query_escape v) ≡ pair (list_key name) v
unfolding list_key
bracket_pair name v = sym (append_assoc name (codes "[]") (b'=' ∷ query_escape v))

pair_ne_nil : (k v : Bytes) → pair k v ≢ []
pair_ne_nil [] v = λ p. cc
pair_ne_nil (c ∷ k) v = λ p. cc

append_bracket_array-join :
    (ts : List Bytes) (name : Bytes) (values : List Bytes)
    → All (λ t. t ≢ []) ts
    → append_bracket_array (join (codes "&") ts) name values
      ≡ join (codes "&") (ts ++ list_parts (list_key name) values)
unfolding append_bracket_array list_parts
append_bracket_array-join ts name [] h = ap (join (codes "&")) (sym (append-nil ts))
append_bracket_array-join ts name (v ∷ values) h =
    ap (λ u. append_bracket_array u name values)
      (ap (join_pair (join (codes "&") ts)) (bracket_pair name v) ∙ join_pair-join ts _ h)
    ∙ append_bracket_array-join (ts ++ pair (list_key name) v ∷ []) name values
        (All-append _ ts _ h (pair_ne_nil (list_key name) v, tt))
    ∙ ap (join (codes "&"))
        (append_assoc ts (pair (list_key name) v ∷ []) (list_parts (list_key name) values))

-- The fields that are no lists, in the order of the form.
abbrev pub scalar_fields : TrafficGetParams → List (Bytes × Bytes)
scalar_fields params =
    let rest = (codes "to", params.to) ∷ (codes "type", params.type) ∷ [] in
    (codes "from", params.from)
    ∷ (if params.single_values then (codes "single_values", codes "true") ∷ rest else rest)

abbrev pub traffic_fields : TrafficGetParams → List (Bytes × Bytes)
traffic_fields params =
    (scalar_fields params ++ list_fields (codes "ip[]") (all_ips params.ip params.ips))
    ++ list_fields (codes "subnet[]") params.subnets

-- Every text of the parameters is made of bytes.
abbrev pub HasBytes : TrafficGetParams → Type 0
HasBytes params =
    All IsByte params.type
    × All IsByte params.from
    × All IsByte params.to
    × All (All IsByte) (all_ips params.ip params.ips)
    × All (All IsByte) params.subnets

form_of : Bool → Bytes → Bytes → Bytes → Values
form_of single type from to =
    let form = set (codes "to") to (set (codes "from") from (set (codes "type") type [])) in
    if single then set (codes "single_values") (codes "true") form else form

fields_of : Bool → Bytes → Bytes → Bytes → List (Bytes × Bytes)
fields_of single type from to =
    let rest = (codes "to", to) ∷ (codes "type", type) ∷ [] in
    (codes "from", from) ∷ (if single then (codes "single_values", codes "true") ∷ rest else rest)

form_of-fields_of :
    (single : Bool) (type from to : Bytes)
    → All IsByte type
    → All IsByte from
    → All IsByte to
    → IsBytes (form_of single type from to) (sort_strings (keys (form_of single type from to)))
      × (pairs_of (form_of single type from to) ≡ fields_of single type from to)
unfolding form_of fields_of set insert lookup sort_strings text_leb
form_of-fields_of true type from to ht hf ho = (
  (
    ground arith,
    (hf, tt),
    (ground arith, (ground arith, tt), (ground arith, (ho, tt), (ground arith, (ht, tt), tt))),
  ),
  refl,
)
form_of-fields_of false type from to ht hf ho =
    ((ground arith, (hf, tt), (ground arith, (ho, tt), (ground arith, (ht, tt), tt))), refl)

AllEncode-filled :
    (ts : List Bytes) (kvs : List (Bytes × Bytes)) → AllEncode ts kvs → All (λ t. t ≢ []) ts
AllEncode-filled [] kvs h = tt
AllEncode-filled (t ∷ ts) [] h = absurd h
AllEncode-filled (t ∷ ts) (_ ∷ kvs) (h, hs) = (h.filled, AllEncode-filled ts kvs hs)

-- The body reads as the scalar fields and then the two lists, in their order.
pub parse_query-traffic_body :
    (params : TrafficGetParams)
    → HasBytes params
    → parse_query (traffic_body params) ≡ record { pairs = traffic_fields params; failed = false }
unfolding traffic_body form_of fields_of list_key
parse_query-traffic_body params (ht, hf, ho, hi, hs) =
    let (plain, fields) =
      form_of-fields_of params.single_values params.type params.from params.to ht hf ho in
    let (ts, joined, encodes) = encode-AllEncode (traffic_form params) plain in
    let ips = all_ips params.ip params.ips in
    let subnets = params.subnets in
    let scalars = subst (AllEncode ts) fields encodes in
    let one = list_parts (codes "ip[]") ips in
    let two = list_parts (codes "subnet[]") subnets in
    let first =
      AllEncode-append ts one _ _ scalars
        (list_parts-AllEncode (codes "ip[]") ips (ground arith) hi) in
    ap
      (λ s.
        parse_query
          (append_bracket_array (append_bracket_array s (codes "ip") ips) (codes "subnet") subnets))
      joined
    ∙ ap (λ s. parse_query (append_bracket_array s (codes "subnet") subnets))
        (append_bracket_array-join ts (codes "ip") ips (AllEncode-filled ts _ scalars))
    ∙ ap parse_query (
        append_bracket_array-join (ts ++ one) (codes "subnet") subnets
          (AllEncode-filled (ts ++ one) _ first))
    ∙ parse_query-join ((ts ++ one) ++ two) (traffic_fields params) (
        AllEncode-append (ts ++ one) two _ _ first
          (list_parts-AllEncode (codes "subnet[]") subnets (ground arith) hs))

module _ (S : Session) {A B : Type 0} (DA : Decoder A) (DB : Decoder B)
    (D : Decoder RawTraffic) where
  -- From any world, `Get` asks for exactly the traffic that its parameters name: type, range, and
  -- the addresses and subnets in their order, each under its key with literal brackets, whatever
  -- bytes they are made of.
  pub get-traffic_asked :
      (params : TrafficGetParams) (w : World S.env)
      → HasBytes params
      → New S
          (Asks S (record {
            method = method_post;
            segments = codes "traffic" ∷ [];
            form = traffic_fields params;
          }))
          w
          (get S DA DB D params w).1
  unfolding get Methods.post_raw
  get-traffic_asked params w h =
      subst (New S (Asks S asked) w)
        (sym (kept (Methods.post_raw S D (codes "/traffic") (traffic_body params) w)))
        (perform-New S D method_post _ _ _ _ w (unfold read_path in refl)
          (parse_query-traffic_body params h))
    where
      asked : Ask
      asked = record {
        method = method_post;
        segments = codes "traffic" ∷ [];
        form = traffic_fields params;
      }

      kept :
          (p : Result RawTraffic × World S.env)
          → (on_value S
              (λ raw w. (read_traffic S DA DB params.single_values raw raw.payload, w))
              p).1
            ≡ p.1
      kept (ok raw, w) = refl
      kept (fail e, w) = refl
