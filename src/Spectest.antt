-- ===== src/Spectest.antt =====
-- internal/spectest: the checks by hand of the forms of /traffic and of a vSwitch's servers
-- (traffic.go, vswitch.go).
pub mod Accepts
pub mod Keys
pub mod Handler
pub mod Load
use hrobot_go.Base.{
  split, trim_byte, ◌&&◌, ℕ, ◌≡◌, refl, Bool, true, false, ◌||◌, List, [], ◌∷◌, ◌++◌, Bytes, codes,
  bytes_eq, if◌then◌else◌, keys, get_or,
}
use hrobot_go.Url.Query.{Query, parse_query}
use hrobot_go.Url.Values.{Values, add}

-- What a check reports by `t.Errorf`.
pub data Report : Type 0 where
  not_a_form : Report
  bad_key : Bytes → Report
  no_server : Report

pub add_all : List (Bytes × Bytes) → Values → Values
add_all [] values = values
add_all ((k, v) ∷ pairs) values = add_all pairs (add k v values)

-- The values that `url.ParseQuery` makes of the pairs.
unfoldable pub values_of : List (Bytes × Bytes) → Values
unfolding add_all
values_of pairs = add_all pairs []

-- The loop over the keys.
unfoldable pub report_keys : (Bytes → Bool) → List Bytes → List Report
report_keys allowed [] = []
report_keys allowed (k ∷ ks) =
    let rest = report_keys allowed ks in if allowed k then rest else bad_key k ∷ rest

unfoldable pub is_traffic_key : Bytes → Bool
unfolding bytes_eq
is_traffic_key key =
    bytes_eq key (codes "ip")
    || bytes_eq key (codes "from")
    || bytes_eq key (codes "to")
    || bytes_eq key (codes "type")
    || bytes_eq key (codes "single_values")
    || bytes_eq key (codes "ip[]")
    || bytes_eq key (codes "subnet[]")

traffic_reports : Query → List Report
traffic_reports q =
    if q.failed then not_a_form ∷ [] else report_keys is_traffic_key (keys (values_of q.pairs))

unfoldable pub validate_traffic_form : Bytes → List Report
unfolding traffic_reports report_keys is_traffic_key values_of parse_query
validate_traffic_form body = traffic_reports (parse_query body)

unfoldable pub is_server_key : Bytes → Bool
unfolding bytes_eq
is_server_key key = bytes_eq key (codes "server[]")

-- `len(values["server[]"]) == 0`.
report_missing : List Bytes → List Report
report_missing [] = no_server ∷ []
report_missing (v ∷ vs) = []

vswitch_reports : Query → List Report
vswitch_reports q =
    if q.failed
    then not_a_form ∷ []
    else report_keys is_server_key (keys (values_of q.pairs))
      ++ report_missing (get_or (codes "server[]") [] (values_of q.pairs))

unfoldable pub validate_vswitch_server_form : Bytes → List Report
unfolding vswitch_reports report_keys report_missing is_server_key values_of parse_query
validate_vswitch_server_form body = vswitch_reports (parse_query body)

-- `strings.Split(strings.Trim(path, "/"), "/")`.
unfoldable pub segments_of : Bytes → List Bytes
unfolding split trim_byte
segments_of path = split b'/' (trim_byte b'/' path)

unfoldable pub is_traffic_segments : List Bytes → Bool
unfolding bytes_eq
is_traffic_segments (first ∷ []) = bytes_eq first (codes "traffic")
is_traffic_segments segments = false

unfoldable pub is_traffic_path : Bytes → Bool
unfolding is_traffic_segments segments_of
is_traffic_path path = is_traffic_segments (segments_of path)

unfoldable pub is_vswitch_server_segments : List Bytes → Bool
unfolding bytes_eq
is_vswitch_server_segments (first ∷ id ∷ third ∷ []) =
    bytes_eq first (codes "vswitch") && bytes_eq third (codes "server")
is_vswitch_server_segments segments = false

unfoldable pub is_vswitch_server_path : Bytes → Bool
unfolding is_vswitch_server_segments segments_of
is_vswitch_server_path path = is_vswitch_server_segments (segments_of path)
