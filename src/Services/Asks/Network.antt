-- ===== src/Services/Asks/Network.antt =====
-- What the operations of the server, reset, wake-on-LAN, reverse DNS, failover and subnet services
-- are to ask of the service.
pub mod Requests
use hrobot_go.Base.{
  ◌≡◌, refl, List, [], ◌∷◌, ◌++◌, Bytes, codes, All, All-weaken, Bool, true, false, ℤ, pos, negsuc,
  itoa_int, itoa, itoa-IsDigit, IsDigit, format_bool, lookup, insert, sort_strings, text_leb, arith,
  some, none, keys, suc,
}
use hrobot_go.Url.Escape.{IsByte, path_escape}
use hrobot_go.Base.{subst, bytes_eq}
use hrobot_go.Url.Path.{read_path, IsSelf, Reads, path_escape-Reads, itoa_int-Reads}
use hrobot_go.Url.Values.{Values, set, encode, pairs_of, IsBytes}
use hrobot_go.Url.Query.{parse_query}
use hrobot_go.Client.World.{Method, method_get, method_post, method_put, method_delete, World}
use hrobot_go.Client.Wait.{encode_form}
use hrobot_go.Client.Json.{Decoder}
use hrobot_go.Client.Methods
use hrobot_go.Client.Methods.{Session}
use hrobot_go.Client.Sends.{Ask, Asks, New, perform-New}
use hrobot_go.Services.Asks.{
  one-Reads, two-Reads, three-Reads, get-New, form-New, field-New, delete-New,
}
use hrobot_go.Services.Server
use hrobot_go.Services.Reset
use hrobot_go.Services.Wol
use hrobot_go.Services.Rdns
use hrobot_go.Services.Failover
use hrobot_go.Services.Subnet

-- A call of an operation, with its arguments.
pub data Operation : Type 0 where
  list_servers list_resets list_rdns list_failovers list_subnets : Operation
  get_server get_reset get_wol send_wol withdraw_server : ℤ → Operation
  set_server_name : ℤ → Bytes → Operation
  execute_reset : ℤ → Bytes → Operation
  get_rdns delete_rdns get_failover delete_failover : Bytes → Operation
  create_rdns update_rdns update_failover : Bytes → Bytes → Operation
  get_subnet get_subnet_mac delete_subnet_mac get_subnet_end withdraw_subnet : Bytes → Operation
  set_subnet_mac : Bytes → Bytes → Operation
  update_subnet : Bytes → Bool → ℤ → ℤ → ℤ → Operation

abbrev pub reads : List Bytes → Ask
reads segments = record { method = method_get; segments = segments; form = [] }

abbrev pub deletes : List Bytes → Ask
deletes segments = record { method = method_delete; segments = segments; form = [] }

abbrev pub writes : Method → List Bytes → List (Bytes × Bytes) → Ask
writes m segments form = record { method = m; segments = segments; form = form }

abbrev of_server : ℤ → List Bytes → List Bytes
of_server id rest = codes "server" ∷ itoa_int id ∷ rest

abbrev of_subnet : Bytes → List Bytes → List Bytes
of_subnet ip rest = codes "subnet" ∷ ip ∷ rest

-- What it is to ask, as client code would write it down.
abbrev pub asked : Operation → Ask
asked list_servers = reads (codes "server" ∷ [])
asked list_resets = reads (codes "reset" ∷ [])
asked list_rdns = reads (codes "rdns" ∷ [])
asked list_failovers = reads (codes "failover" ∷ [])
asked list_subnets = reads (codes "subnet" ∷ [])
asked (get_server id) = reads (of_server id [])
asked (get_reset id) = reads (codes "reset" ∷ itoa_int id ∷ [])
asked (get_wol id) = reads (codes "wol" ∷ itoa_int id ∷ [])
asked (send_wol id) = writes method_post (codes "wol" ∷ itoa_int id ∷ []) []
asked (withdraw_server id) = deletes (of_server id (codes "cancellation" ∷ []))
asked (set_server_name id name) =
    writes method_post (of_server id []) ((codes "server_name", name) ∷ [])
asked (execute_reset id kind) =
    writes method_post (codes "reset" ∷ itoa_int id ∷ []) ((codes "type", kind) ∷ [])
asked (get_rdns ip) = reads (codes "rdns" ∷ ip ∷ [])
asked (delete_rdns ip) = deletes (codes "rdns" ∷ ip ∷ [])
asked (get_failover ip) = reads (codes "failover" ∷ ip ∷ [])
asked (delete_failover ip) = deletes (codes "failover" ∷ ip ∷ [])
asked (create_rdns ip ptr) = writes method_put (codes "rdns" ∷ ip ∷ []) ((codes "ptr", ptr) ∷ [])
asked (update_rdns ip ptr) = writes method_post (codes "rdns" ∷ ip ∷ []) ((codes "ptr", ptr) ∷ [])
asked (update_failover ip target) =
    writes method_post (codes "failover" ∷ ip ∷ []) ((codes "active_server_ip", target) ∷ [])
asked (get_subnet ip) = reads (of_subnet ip [])
asked (get_subnet_mac ip) = reads (of_subnet ip (codes "mac" ∷ []))
asked (delete_subnet_mac ip) = deletes (of_subnet ip (codes "mac" ∷ []))
asked (get_subnet_end ip) = reads (of_subnet ip (codes "cancellation" ∷ []))
asked (withdraw_subnet ip) = deletes (of_subnet ip (codes "cancellation" ∷ []))
asked (set_subnet_mac ip mac) =
    writes method_put (of_subnet ip (codes "mac" ∷ [])) ((codes "mac", mac) ∷ [])
asked (update_subnet ip warnings hourly daily monthly) = writes method_post (of_subnet ip []) (
    (codes "traffic_daily", itoa_int daily)
    ∷ (codes "traffic_hourly", itoa_int hourly)
    ∷ (codes "traffic_monthly", itoa_int monthly)
    ∷ (codes "traffic_warnings", format_bool warnings)
    ∷ [])

-- Every text among the arguments is made of bytes.
abbrev pub HasBytes : Operation → Type 0
HasBytes (set_server_name id name) = All IsByte name
HasBytes (execute_reset id kind) = All IsByte kind
HasBytes (get_rdns ip) = All IsByte ip
HasBytes (delete_rdns ip) = All IsByte ip
HasBytes (get_failover ip) = All IsByte ip
HasBytes (delete_failover ip) = All IsByte ip
HasBytes (create_rdns ip ptr) = All IsByte ip × All IsByte ptr
HasBytes (update_rdns ip ptr) = All IsByte ip × All IsByte ptr
HasBytes (update_failover ip target) = All IsByte ip × All IsByte target
HasBytes (get_subnet ip) = All IsByte ip
HasBytes (get_subnet_mac ip) = All IsByte ip
HasBytes (delete_subnet_mac ip) = All IsByte ip
HasBytes (get_subnet_end ip) = All IsByte ip
HasBytes (withdraw_subnet ip) = All IsByte ip
HasBytes (set_subnet_mac ip mac) = All IsByte ip × All IsByte mac
HasBytes (update_subnet ip warnings hourly daily monthly) = All IsByte ip
HasBytes _ = Unit

module _ {ℓ} (S : Session) {A : Type ℓ} (DL : Decoder (List A)) (D : Decoder A) where
  -- The world after the operation.
  unfoldable pub after : Operation → World S.env → World S.env
  after list_servers w = (Server.list S DL w).1
  after list_resets w = (Reset.list S DL w).1
  after list_rdns w = (Rdns.list S DL [] w).1
  after list_failovers w = (Failover.list S DL w).1
  after list_subnets w = (Subnet.list S DL w).1
  after (get_server id) w = (Server.get S D id w).1
  after (get_reset id) w = (Reset.get S D id w).1
  after (get_wol id) w = (Wol.get S D id w).1
  after (send_wol id) w = (Wol.send S D id w).1
  after (withdraw_server id) w = (Server.withdraw_cancellation S id w).1
  after (set_server_name id name) w = (Server.set_name S D id name w).1
  after (execute_reset id kind) w = (Reset.execute S D id kind w).1
  after (get_rdns ip) w = (Rdns.get S D ip w).1
  after (delete_rdns ip) w = (Rdns.delete S ip w).1
  after (get_failover ip) w = (Failover.get S D ip w).1
  after (delete_failover ip) w = (Failover.delete S ip w).1
  after (create_rdns ip ptr) w = (Rdns.create S D ip ptr w).1
  after (update_rdns ip ptr) w = (Rdns.update S D ip ptr w).1
  after (update_failover ip target) w = (Failover.update S D ip target w).1
  after (get_subnet ip) w = (Subnet.get S D ip w).1
  after (get_subnet_mac ip) w = (Subnet.get_mac S D ip w).1
  after (delete_subnet_mac ip) w = (Subnet.delete_mac S ip w).1
  after (get_subnet_end ip) w = (Subnet.get_cancellation S D ip w).1
  after (withdraw_subnet ip) w = (Subnet.withdraw_cancellation S ip w).1
  after (set_subnet_mac ip mac) w = (Subnet.set_mac S D ip mac w).1
  after (update_subnet ip warnings hourly daily monthly) w =
      (Subnet.update S D ip warnings hourly daily monthly w).1
