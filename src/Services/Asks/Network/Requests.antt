-- ===== src/Services/Asks/Network/Requests.antt =====
-- What a server reads from the requests of these operations.
use hrobot_go.Base.{
  ◌≡◌, refl, List, [], ◌∷◌, ◌++◌, Bytes, codes, All, Bool, ℤ, itoa_int, format_bool, lookup, insert,
  sort_strings, text_leb, arith, some, keys,
}
use hrobot_go.Url.Escape.{IsByte, path_escape}
use hrobot_go.Base.{subst, bytes_eq}
use hrobot_go.Url.Path.{read_path, IsSelf, path_escape-Reads, itoa_int-Reads}
use hrobot_go.Url.Values.{Values, set, encode, pairs_of, IsBytes}
use hrobot_go.Url.Query.{parse_query}
use hrobot_go.Client.World.{method_post, method_put, World}
use hrobot_go.Client.Wait.{encode_form}
use hrobot_go.Client.Json.{Decoder}
use hrobot_go.Client.Methods
use hrobot_go.Client.Methods.{Session}
use hrobot_go.Client.Sends.{Asks, New, perform-New}
use hrobot_go.Services.Asks.{
  itoa_int-IsByte, format_bool-IsByte, one-Reads, two-Reads, three-Reads, get-New, form-New,
  field-New, delete-New,
}
use hrobot_go.Services.Server
use hrobot_go.Services.Reset
use hrobot_go.Services.Wol
use hrobot_go.Services.Rdns
use hrobot_go.Services.Failover
use hrobot_go.Services.Subnet
use hrobot_go.Services.Asks.Network.{
  Operation, list_servers, list_resets, list_rdns, list_failovers, list_subnets, get_server,
  get_reset, get_wol, send_wol, withdraw_server, set_server_name, execute_reset, get_rdns,
  delete_rdns, get_failover, delete_failover, create_rdns, update_rdns, update_failover, get_subnet,
  get_subnet_mac, delete_subnet_mac, get_subnet_end, withdraw_subnet, set_subnet_mac, update_subnet,
  asked, HasBytes, after, writes,
}

-- The form of the traffic limits of a subnet.
abbrev limits_form : Bool → ℤ → ℤ → ℤ → Values
limits_form warnings hourly daily monthly = set (codes "traffic_monthly") (itoa_int monthly) (
    set (codes "traffic_daily") (itoa_int daily) (
      set (codes "traffic_hourly") (itoa_int hourly)
        (set (codes "traffic_warnings") (format_bool warnings) [])))

limits :
    (warnings : Bool) (hourly daily monthly : ℤ)
    → IsBytes
        (limits_form warnings hourly daily monthly)
        (sort_strings (keys (limits_form warnings hourly daily monthly)))
      × (pairs_of (limits_form warnings hourly daily monthly)
          ≡ (codes "traffic_daily", itoa_int daily)
            ∷ (codes "traffic_hourly", itoa_int hourly)
            ∷ (codes "traffic_monthly", itoa_int monthly)
            ∷ (codes "traffic_warnings", format_bool warnings)
            ∷ [])
unfolding set insert lookup sort_strings text_leb bytes_eq
limits warnings hourly daily monthly = (
  (
    omega arith,
    (itoa_int-IsByte daily, tt),
    (
      omega arith,
      (itoa_int-IsByte hourly, tt),
      (
        omega arith,
        (itoa_int-IsByte monthly, tt),
        (omega arith, (format_bool-IsByte warnings, tt), tt),
      ),
    ),
  ),
  refl,
)

ip-Reads :
    (word ip : Bytes)
    → All IsSelf word
    → All IsByte ip
    → read_path (b'/' ∷ (word ++ (b'/' ∷ path_escape ip))) ≡ some (word ∷ ip ∷ [])
ip-Reads word ip h k = two-Reads word (path_escape ip) ip h (path_escape-Reads ip k)

id-Reads :
    (word : Bytes) (id : ℤ)
    → All IsSelf word
    → read_path (b'/' ∷ (word ++ (b'/' ∷ itoa_int id))) ≡ some (word ∷ itoa_int id ∷ [])
id-Reads word id h = two-Reads word (itoa_int id) (itoa_int id) h (itoa_int-Reads id)

subnet-Reads :
    (ip part : Bytes)
    → All IsByte ip
    → All IsSelf part
    → read_path (b'/' ∷ (codes "subnet" ++ (b'/' ∷ (path_escape ip ++ (b'/' ∷ part)))))
      ≡ some (codes "subnet" ∷ ip ∷ part ∷ [])
subnet-Reads ip part k h =
    three-Reads (codes "subnet") (path_escape ip) ip part (omega arith) (path_escape-Reads ip k) h

module _ {ℓ} (S : Session) {A : Type ℓ} (DL : Decoder (List A)) (D : Decoder A) where
  -- From any world, the requests of every operation are read by a server as the operation with its
  -- arguments: no argument, whatever bytes it is made of, changes the path or adds a field.
  pub network-asked :
      (op : Operation) (w : World S.env)
      → HasBytes op
      → New S (Asks S (asked op)) w (after S DL D op w)
  unfolding after Server.list Reset.list Rdns.list Failover.list Subnet.list Server.get Reset.get
      Wol.get Wol.send Server.withdraw_cancellation Server.set_name Reset.execute Rdns.get
      Rdns.delete Failover.get Failover.delete Rdns.create Rdns.update Failover.update Subnet.get
      Subnet.get_mac Subnet.delete_mac Subnet.get_cancellation Subnet.withdraw_cancellation
      Subnet.set_mac Subnet.update Methods.post Methods.put encode_form
  network-asked list_servers w h = get-New S DL w _ _ (one-Reads (codes "server") (omega arith))
  network-asked list_resets w h = get-New S DL w _ _ (one-Reads (codes "reset") (omega arith))
  network-asked list_rdns w h = get-New S DL w _ _ (one-Reads (codes "rdns") (omega arith))
  network-asked list_failovers w h = get-New S DL w _ _ (one-Reads (codes "failover") (omega arith))
  network-asked list_subnets w h = get-New S DL w _ _ (one-Reads (codes "subnet") (omega arith))
  network-asked (get_server id) w h = get-New S D w _ _ (id-Reads (codes "server") id (omega arith))
  network-asked (get_reset id) w h = get-New S D w _ _ (id-Reads (codes "reset") id (omega arith))
  network-asked (get_wol id) w h = get-New S D w _ _ (id-Reads (codes "wol") id (omega arith))
  network-asked (send_wol id) w h =
      perform-New S D method_post _ [] _ [] w (id-Reads (codes "wol") id (omega arith))
        (unfold parse_query in refl)
  network-asked (withdraw_server id) w h = delete-New S w _ _ (
      three-Reads (codes "server") (itoa_int id) (itoa_int id) (codes "cancellation") (omega arith)
        (itoa_int-Reads id) (omega arith))
  network-asked (set_server_name id name) w h =
      field-New S D w method_post _ _ (codes "server_name") name
        (id-Reads (codes "server") id (omega arith)) (omega arith) h
  network-asked (execute_reset id kind) w h =
      field-New S D w method_post _ _ (codes "type") kind
        (id-Reads (codes "reset") id (omega arith)) (omega arith) h
  network-asked (get_rdns ip) w h = get-New S D w _ _ (ip-Reads (codes "rdns") ip (omega arith) h)
  network-asked (delete_rdns ip) w h =
      delete-New S w _ _ (ip-Reads (codes "rdns") ip (omega arith) h)
  network-asked (get_failover ip) w h =
      get-New S D w _ _ (ip-Reads (codes "failover") ip (omega arith) h)
  network-asked (delete_failover ip) w h =
      delete-New S w _ _ (ip-Reads (codes "failover") ip (omega arith) h)
  network-asked (create_rdns ip ptr) w (h, k) =
      field-New S D w method_put _ _ (codes "ptr") ptr (ip-Reads (codes "rdns") ip (omega arith) h)
        (omega arith) k
  network-asked (update_rdns ip ptr) w (h, k) =
      field-New S D w method_post _ _ (codes "ptr") ptr (ip-Reads (codes "rdns") ip (omega arith) h)
        (omega arith) k
  network-asked (update_failover ip target) w (h, k) =
      field-New S D w method_post _ _ (codes "active_server_ip") target
        (ip-Reads (codes "failover") ip (omega arith) h) (omega arith) k
  network-asked (get_subnet ip) w h =
      get-New S D w _ _ (ip-Reads (codes "subnet") ip (omega arith) h)
  network-asked (get_subnet_mac ip) w h =
      get-New S D w _ _ (subnet-Reads ip (codes "mac") h (omega arith))
  network-asked (delete_subnet_mac ip) w h =
      delete-New S w _ _ (subnet-Reads ip (codes "mac") h (omega arith))
  network-asked (get_subnet_end ip) w h =
      get-New S D w _ _ (subnet-Reads ip (codes "cancellation") h (omega arith))
  network-asked (withdraw_subnet ip) w h =
      delete-New S w _ _ (subnet-Reads ip (codes "cancellation") h (omega arith))
  network-asked (set_subnet_mac ip mac) w (h, k) =
      field-New S D w method_put _ _ (codes "mac") mac
        (subnet-Reads ip (codes "mac") h (omega arith)) (omega arith) k
  network-asked (update_subnet ip warnings hourly daily monthly) w h =
      let numbers = limits warnings hourly daily monthly in
      subst
        (λ form.
          New S (Asks S (writes method_post (codes "subnet" ∷ ip ∷ []) form)) w
            (Methods.perform S D method_post (codes "/subnet/" ++ path_escape ip)
              (encode (limits_form warnings hourly daily monthly)) w).1)
        numbers.1
        (form-New S D w method_post _ _ (limits_form warnings hourly daily monthly)
          (ip-Reads (codes "subnet") ip (omega arith) h) numbers.0)
