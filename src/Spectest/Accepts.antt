-- ===== src/Spectest/Accepts.antt =====
-- The test server's checks accept the forms that the services send.
use hrobot_go.Base.{
  ◌≡◌, refl, ap, ◌∙◌, Bool, true, false, List, [], ◌∷◌, ◌++◌, Bytes, codes, All, All-append,
  bytes_eq, if_lem, keys, get_or, insert, lookup, value_or, ap₂, lookup-insert,
}
use hrobot_go.Url.Escape.{IsByte}
use hrobot_go.Url.Values.{Values, add}
use hrobot_go.Spectest.{
  no_server, add_all, values_of, report_keys, is_traffic_key, is_server_key, traffic_reports,
  report_missing, vswitch_reports, validate_traffic_form, validate_vswitch_server_form,
}
use hrobot_go.Services.Traffic.{TrafficGetParams, traffic_body, all_ips}
use hrobot_go.Services.Traffic.Asks.{
  HasBytes, traffic_fields, scalar_fields, list_fields, parse_query-traffic_body,
}
use hrobot_go.Services.Vswitch.{servers_form}
use hrobot_go.Services.Vswitch.Asks.{server_fields, parse_query-servers_form}

abbrev pub Allows : (Bytes → Bool) → Bytes → Type 0
Allows allowed k = allowed k ≡ true

module _ (allowed : Bytes → Bool) where
  keys-insert-Allows :
      {W : Type 0} (k : Bytes) (v : W) (m : List (Bytes × W))
      → Allows allowed k
      → All (Allows allowed) (keys m)
      → All (Allows allowed) (keys (insert k v m))
  unfolding insert
  keys-insert-Allows k v [] hk h = (hk, tt)
  keys-insert-Allows {W = W} k v ((j, w) ∷ m) hk (hj, h) =
      if_lem (λ (l : List (Bytes × W)). All (Allows allowed) (keys l)) (bytes_eq j k) _ _
        (λ t. (hk, h)) (λ f. (hj, keys-insert-Allows k v m hk h))

  pub keys-add_all-Allows :
      (pairs : List (Bytes × Bytes)) (values : Values)
      → All (λ p. Allows allowed p.0) pairs
      → All (Allows allowed) (keys values)
      → All (Allows allowed) (keys (add_all pairs values))
  unfolding add_all add
  keys-add_all-Allows [] values h hv = hv
  keys-add_all-Allows ((k, v) ∷ pairs) values (hk, h) hv =
      keys-add_all-Allows pairs _ h (keys-insert-Allows k _ values hk hv)

  pub report_keys-nil : (ks : List Bytes) → All (Allows allowed) ks → report_keys allowed ks ≡ []
  unfolding report_keys
  report_keys-nil [] h = refl
  report_keys-nil (k ∷ ks) (hk, h) = rw hk (report_keys-nil ks h)

list_fields-Allows :
    (allowed : Bytes → Bool) (key : Bytes) (vs : List Bytes)
    → Allows allowed key
    → All (λ p. Allows allowed p.0) (list_fields key vs)
list_fields-Allows allowed key [] h = tt
list_fields-Allows allowed key (v ∷ vs) h = (h, list_fields-Allows allowed key vs h)

abbrev IsTrafficPair : Bytes × Bytes → Type 0
IsTrafficPair p = Allows is_traffic_key p.0

scalar_fields-Allows : (params : TrafficGetParams) → All IsTrafficPair (scalar_fields params)
unfolding is_traffic_key
scalar_fields-Allows params = (
  refl,
  if_lem (λ (l : List (Bytes × Bytes)). All IsTrafficPair l) params.single_values _ _
      (λ t. (refl, (refl, (refl, tt)))) (λ f. (refl, (refl, tt))),
)

traffic_fields-Allows : (params : TrafficGetParams) → All IsTrafficPair (traffic_fields params)
unfolding is_traffic_key
traffic_fields-Allows params =
    let ips = list_fields (codes "ip[]") (all_ips params.ip params.ips) in
    let subnets = list_fields (codes "subnet[]") params.subnets in
    All-append IsTrafficPair (scalar_fields params ++ ips) subnets
      (All-append IsTrafficPair (scalar_fields params) ips (scalar_fields-Allows params)
        (list_fields-Allows is_traffic_key (codes "ip[]") _ refl))
      (list_fields-Allows is_traffic_key (codes "subnet[]") params.subnets refl)

-- The body of every traffic query, its parameters made of bytes, passes the check.
pub validate_traffic_form-body :
    (params : TrafficGetParams) → HasBytes params → validate_traffic_form (traffic_body params) ≡ []
unfolding validate_traffic_form traffic_reports values_of
validate_traffic_form-body params h =
    ap traffic_reports (parse_query-traffic_body params h)
    ∙ report_keys-nil is_traffic_key _ (
        keys-add_all-Allows is_traffic_key (traffic_fields params) [] (traffic_fields-Allows params)
          tt)

abbrev is_held : List Bytes → Bool
is_held [] = false
is_held (v ∷ vs) = true

is_held-snoc : (vs : List Bytes) (v : Bytes) → is_held (vs ++ v ∷ []) ≡ true
is_held-snoc [] v = refl
is_held-snoc (u ∷ vs) v = refl

report_missing-held : (vs : List Bytes) → is_held vs ≡ true → report_missing vs ≡ []
unfolding report_missing
report_missing-held [] h = cc
report_missing-held (v ∷ vs) h = refl

abbrev servers_of : Values → List Bytes
servers_of values = get_or (codes "server[]") [] values

add-held :
    (server : Bytes) (values : Values)
    → is_held (servers_of (add (codes "server[]") server values)) ≡ true
unfolding add bytes_eq
add-held server values =
    ap (λ o. is_held (value_or [] o))
      (lookup-insert (codes "server[]") (codes "server[]") (servers_of values ++ server ∷ [])
        values)
    ∙ is_held-snoc (servers_of values) server

add_all-held :
    (servers : List Bytes) (values : Values)
    → is_held (servers_of values) ≡ true
    → is_held (servers_of (add_all (server_fields servers) values)) ≡ true
unfolding add_all
add_all-held [] values h = h
add_all-held (s ∷ servers) values h =
    add_all-held servers (add (codes "server[]") s values) (add-held s values)

-- The body that carries one server or more, made of bytes, passes the check, and one without a server does not.
pub validate_vswitch_server_form-servers :
    (server : Bytes) (servers : List Bytes)
    → All (All IsByte) (server ∷ servers)
    → (validate_vswitch_server_form (servers_form (server ∷ servers)) ≡ [])
      × (validate_vswitch_server_form (servers_form []) ≡ no_server ∷ [])
unfolding validate_vswitch_server_form vswitch_reports values_of add_all report_keys report_missing
    lookup
validate_vswitch_server_form-servers server servers h = (
  ap vswitch_reports (parse_query-servers_form (server ∷ servers) h)
      ∙ ap₂ (λ xs ys. xs ++ ys)
          (report_keys-nil is_server_key _ (
            keys-add_all-Allows is_server_key (server_fields (server ∷ servers)) []
              (list_fields-Allows is_server_key (codes "server[]") (server ∷ servers)
                (unfold is_server_key in refl))
              tt))
          (report_missing-held _
            (add_all-held servers (add (codes "server[]") server []) (add-held server []))),
  ap vswitch_reports (parse_query-servers_form [] tt),
)
