-- ===== src/Services/Vswitch.antt =====
-- vswitch.go: `VSwitchService`.
pub mod Ready
pub mod Asks
use hrobot_go.Base.{
  ℕ, zero, suc, ◌≡◌, Bool, true, false, not, ◌&&◌, ◌||◌, List, [], ◌∷◌, ◌++◌, Bytes, codes, Option,
  none, some, ℤ, pos, negsuc, itoa_int, ◌==◌, bytes_eq, if◌then◌else◌, join,
}
use hrobot_go.Url.Escape.{query_escape, path_escape}
use hrobot_go.Url.Values.{Values, set, add, encode}
use hrobot_go.Errors.{
  GoError, nil, other, Result, ok, fail, new_policy_error, new_parse_error, new_api_error,
  err_unknown,
}
use hrobot_go.Client.Json.{Decoder}
use hrobot_go.Client.Wait.{wait_for_condition, encode_form}
use hrobot_go.Client.Methods
use hrobot_go.Client.Methods.{Session, Call, Done, and_then, return, reject, no_value}

abbrev pub status_ready : Bytes
status_ready = codes "ready"

abbrev pub status_failed : Bytes
status_failed = codes "failed"

pub record VswitchListItem : Type 0 where
  pub id : ℤ
  pub name : Bytes
  pub vlan : ℤ
  pub cancelled : Bool

pub record VswitchServer : Type 0 where
  pub server_ip : Bytes
  pub server_ipv6_net : Bytes
  pub server_number : ℤ
  pub status : Bytes

pub record VswitchSubnet : Type 0 where
  pub ip : Bytes
  pub mask : ℤ
  pub gateway : Bytes

pub record CloudNetwork : Type 0 where
  pub id : ℤ
  pub ip : Bytes
  pub mask : ℤ
  pub gateway : Bytes

pub record Vswitch : Type 0 where
  pub id : ℤ
  pub name : Bytes
  pub vlan : ℤ
  pub cancelled : Bool
  pub servers : List VswitchServer
  pub subnets : List VswitchSubnet
  pub cloud_network : List CloudNetwork

abbrev pub vswitch_path : ℤ → Bytes
vswitch_path id = codes "/vswitch/" ++ itoa_int id

abbrev pub servers_path : ℤ → Bytes
servers_path id = codes "/vswitch/" ++ (itoa_int id ++ codes "/server")

abbrev pub switch_form : Bytes → ℤ → Values
switch_form name vlan = set (codes "vlan") (itoa_int vlan) (set (codes "name") name [])

-- One part for each server, the brackets as they are.
form_parts : List Bytes → List Bytes
form_parts [] = []
form_parts (server ∷ servers) = (codes "server[]=" ++ query_escape server) ∷ form_parts servers

unfoldable pub servers_form : List Bytes → Bytes
unfolding form_parts query_escape join
servers_form servers = join (codes "&") (form_parts servers)

-- The loop over the servers: an error, not ready yet, or ready.
unfoldable pub all_ready : ℤ → List VswitchServer → Result Bool
unfolding bytes_eq
all_ready id [] = ok true
all_ready id (server ∷ servers) =
    let rest = all_ready id servers in
    if bytes_eq server.status status_failed
    then fail (
        other (
          codes "vswitch "
          ++ (itoa_int id
              ++ (codes ": server "
                  ++ (itoa_int server.server_number ++ codes " is in status failed")))))
    else if not (bytes_eq server.status status_ready)
    then ok false
    else rest

-- `list` gives `VSwitchListItem`s, the type `A`.
unfoldable pub list {ℓ} : (S : Session) {A : Type ℓ} → Decoder (List A) → Call S (List A)
list S D = Methods.get S D (codes "/vswitch")

module _ (S : Session) where
  unfoldable pub get : Decoder Vswitch → ℤ → Call S Vswitch
  get D id = Methods.get S D (vswitch_path id)

  unfoldable pub create : Decoder Vswitch → Bytes → ℤ → Call S Vswitch
  create D name vlan = Methods.post S D (codes "/vswitch") (some (switch_form name vlan))

  unfoldable pub update : ℤ → Bytes → ℤ → Call S Done
  update id name vlan = Methods.post S no_value (vswitch_path id) (some (switch_form name vlan))

  unfoldable pub delete : ℤ → Bytes → Call S Done
  delete id cancellation_date =
      Methods.delete_with_body S no_value (vswitch_path id)
        (some (set (codes "cancellation_date") cancellation_date []))

  unfoldable pub add_servers : ℤ → List Bytes → Call S Done
  unfolding servers_form
  add_servers id servers = Methods.post_raw S no_value (servers_path id) (servers_form servers)

  unfoldable pub remove_servers : ℤ → List Bytes → Call S Done
  unfolding servers_form
  remove_servers id servers = Methods.delete_raw S no_value (servers_path id) (servers_form servers)

  -- The condition that is polled.
  unfoldable pub is_ready : Decoder Vswitch → ℤ → Call S Bool
  unfolding get all_ready
  is_ready D id = and_then S (get D id) (λ vswitch w. (all_ready id vswitch.servers, w))

  unfoldable pub wait_for_vswitch_ready : Decoder Vswitch → ℤ → Call S Done
  unfolding is_ready
  wait_for_vswitch_ready D id = wait_for_condition S (is_ready D id)
