-- ===== src/Services/Traffic.antt =====
-- traffic.go: `TrafficService`.
pub mod Asks
use hrobot_go.Base.{Bool, true, false, List, [], ◌∷◌, ◌++◌, Bytes, codes, if◌then◌else◌}
use hrobot_go.Url.Escape.{query_escape}
use hrobot_go.Url.Values.{Values, set, encode}
use hrobot_go.Errors.{Result, ok, fail, new_parse_error}
use hrobot_go.Client.Json.{Decoder}
use hrobot_go.Client.Methods
use hrobot_go.Client.Methods.{Session, Call, Done, and_then, return, reject, no_value}
use hrobot_go.Types.Scalars.{Float}

pub record TrafficStats (D : Float) : Type 0 where
  pub in' : D.F
  pub out : D.F
  pub sum : D.F

-- `TrafficType`.
abbrev pub traffic_type_day : Bytes
traffic_type_day = codes "day"

pub record TrafficGetParams : Type 0 where
  pub type : Bytes
  pub from : Bytes
  pub to : Bytes
  pub ip : Bytes
  pub ips : List Bytes
  pub subnets : List Bytes
  pub single_values : Bool

-- The response, its `data` as text.
pub record RawTraffic : Type 0 where
  pub type : Bytes
  pub from : Bytes
  pub to : Bytes
  pub payload : Bytes

-- `ServerTrafficData`, with the zero value of the map that the request did not ask for.
pub record ServerTrafficData (A B : Type 0) : Type 0 where
  pub type : Bytes
  pub from : Bytes
  pub to : Bytes
  pub totals : A
  pub values : B

-- `body == ""` starts the body.
abbrev pub join_pair : Bytes → Bytes → Bytes
join_pair [] pair = pair
join_pair (c ∷ body) pair = (c ∷ body) ++ (codes "&" ++ pair)

unfoldable pub append_bracket_array : Bytes → Bytes → List Bytes → Bytes
unfolding query_escape
append_bracket_array body name [] = body
append_bracket_array body name (v ∷ values) =
    append_bracket_array (join_pair body (name ++ (codes "[]=" ++ query_escape v))) name values

-- The shorthand `IP` goes before the list.
abbrev pub all_ips : Bytes → List Bytes → List Bytes
all_ips [] ips = ips
all_ips (c ∷ ip) ips = (c ∷ ip) ∷ ips

abbrev pub traffic_form : TrafficGetParams → Values
traffic_form params =
    let form =
      set (codes "to") params.to
        (set (codes "from") params.from (set (codes "type") params.type [])) in
    if params.single_values then set (codes "single_values") (codes "true") form else form

unfoldable pub traffic_body : TrafficGetParams → Bytes
unfolding append_bracket_array encode set
traffic_body params =
    append_bracket_array
      (append_bracket_array (encode (traffic_form params)) (codes "ip")
        (all_ips params.ip params.ips))
      (codes "subnet") params.subnets

-- `A` is `map[string]TrafficStats` and `B` the map of such maps.
module _ (S : Session) {A B : Type 0} (DA : Decoder A) (DB : Decoder B) where
  abbrev result : RawTraffic → A → B → ServerTrafficData A B
  result raw totals values = record {
    type = raw.type;
    from = raw.from;
    to = raw.to;
    totals = totals;
    values = values;
  }

  abbrev with_values : RawTraffic → Result B → Result (ServerTrafficData A B)
  with_values raw (ok values) = ok (result raw DA.zero_value values)
  with_values raw (fail e) =
      fail (new_parse_error (codes "failed to decode traffic single_values data") e)

  abbrev with_totals : RawTraffic → Result A → Result (ServerTrafficData A B)
  with_totals raw (ok totals) = ok (result raw totals DB.zero_value)
  with_totals raw (fail e) = fail (new_parse_error (codes "failed to decode traffic data") e)

  abbrev read_traffic : Bool → RawTraffic → Bytes → Result (ServerTrafficData A B)
  read_traffic single raw [] = ok (result raw DA.zero_value DB.zero_value)
  read_traffic true raw (c ∷ s) = with_values raw (DB.unmarshal (c ∷ s))
  read_traffic false raw (c ∷ s) = with_totals raw (DA.unmarshal (c ∷ s))

  unfoldable pub get : Decoder RawTraffic → TrafficGetParams → Call S (ServerTrafficData A B)
  unfolding traffic_body
  get D params =
      and_then S (Methods.post_raw S D (codes "/traffic") (traffic_body params))
        (λ raw w. (read_traffic params.single_values raw raw.payload, w))
