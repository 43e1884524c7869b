-- ===== src/Services/Asks/Hosts.antt =====
-- What the operations of the boot and the IP service are to ask of the service.
pub mod Forms
pub mod Requests
use hrobot_go.Base.{
  List, [], ◌∷◌, ◌++◌, Bytes, codes, All, Bool, zero, suc, ℤ, pos, negsuc, itoa_int, format_bool,
}
use hrobot_go.Url.Escape.{IsByte}
use hrobot_go.Url.Path.{IsSelf}
use hrobot_go.Url.Settings.{flat}
use hrobot_go.Client.World.{Method, method_get, method_post, method_put, method_delete, World}
use hrobot_go.Client.Json.{Decoder}
use hrobot_go.Client.Methods.{Session}
use hrobot_go.Client.Sends.{Ask}
use hrobot_go.Services.Asks.Storage.{ask, filled_of}
use hrobot_go.Services.Boot
use hrobot_go.Services.Boot.{RescueActivateOpts, LinuxActivateOpts, VncActivateOpts}
use hrobot_go.Services.Ip
use hrobot_go.Services.Ip.{NetIp}

-- A call of an operation, with its arguments.
pub data Operation : Type 0 where
  list_ips : Operation
  get_boot last_rescue last_linux get_windows : ℤ → Operation
  stop_rescue stop_linux stop_vnc stop_windows : ℤ → Operation
  start_rescue : ℤ → RescueActivateOpts → Operation
  start_linux : ℤ → LinuxActivateOpts → Operation
  start_vnc : ℤ → VncActivateOpts → Operation
  start_windows : ℤ → Bytes → Bytes → Operation
  get_ip get_ip_mac set_ip_mac delete_ip_mac withdraw_ip : NetIp → Operation
  warn_ip : NetIp → Bool → Operation

-- The architecture, if it is not 0.
abbrev pub arch_of : ℤ → List Bytes
arch_of (pos zero) = []
arch_of (pos (suc n)) = itoa_int (pos (suc n)) ∷ []
arch_of (negsuc n) = itoa_int (negsuc n) ∷ []

-- The fields in ascending order of their names; there is a field for each key.
abbrev pub rescue_fields : RescueActivateOpts → List (Bytes × Bytes)
rescue_fields o = flat (
    (codes "arch", arch_of o.arch)
    ∷ (codes "authorized_key[]", o.authorized_keys)
    ∷ (codes "keyboard", filled_of o.keyboard)
    ∷ (codes "os", o.os ∷ [])
    ∷ [])

abbrev pub linux_fields : LinuxActivateOpts → List (Bytes × Bytes)
linux_fields o = flat (
    (codes "arch", arch_of o.arch)
    ∷ (codes "authorized_key[]", o.authorized_keys)
    ∷ (codes "dist", o.dist ∷ [])
    ∷ (codes "lang", o.lang ∷ [])
    ∷ [])

abbrev pub vnc_fields : VncActivateOpts → List (Bytes × Bytes)
vnc_fields o = flat (
    (codes "arch", arch_of o.arch) ∷ (codes "dist", o.dist ∷ []) ∷ (codes "lang", o.lang ∷ []) ∷ [])

abbrev boot : ℤ → List Bytes → List Bytes
boot id rest = codes "boot" ∷ itoa_int id ∷ rest

abbrev of_ip : NetIp → List Bytes → List Bytes
of_ip ip rest = codes "ip" ∷ ip.text ∷ rest

-- What it is to ask, as client code would write it down.
abbrev pub asked : Operation → Ask
asked list_ips = ask method_get (codes "ip" ∷ []) []
asked (get_boot id) = ask method_get (boot id []) []
asked (last_rescue id) = ask method_get (boot id (codes "rescue" ∷ codes "last" ∷ [])) []
asked (last_linux id) = ask method_get (boot id (codes "linux" ∷ codes "last" ∷ [])) []
asked (get_windows id) = ask method_get (boot id (codes "windows" ∷ [])) []
asked (stop_rescue id) = ask method_delete (boot id (codes "rescue" ∷ [])) []
asked (stop_linux id) = ask method_delete (boot id (codes "linux" ∷ [])) []
asked (stop_vnc id) = ask method_delete (boot id (codes "vnc" ∷ [])) []
asked (stop_windows id) = ask method_delete (boot id (codes "windows" ∷ [])) []
asked (start_rescue id o) = ask method_post (boot id (codes "rescue" ∷ [])) (rescue_fields o)
asked (start_linux id o) = ask method_post (boot id (codes "linux" ∷ [])) (linux_fields o)
asked (start_vnc id o) = ask method_post (boot id (codes "vnc" ∷ [])) (vnc_fields o)
asked (start_windows id lang os) =
    ask method_post (boot id (codes "windows" ∷ [])) ((codes "lang", lang) ∷ (codes "os", os) ∷ [])
asked (get_ip ip) = ask method_get (of_ip ip []) []
asked (warn_ip ip enabled) =
    ask method_post (of_ip ip []) ((codes "traffic_warnings", format_bool enabled) ∷ [])
asked (get_ip_mac ip) = ask method_get (of_ip ip (codes "mac" ∷ [])) []
asked (set_ip_mac ip) = ask method_put (of_ip ip (codes "mac" ∷ [])) []
asked (delete_ip_mac ip) = ask method_delete (of_ip ip (codes "mac" ∷ [])) []
asked (withdraw_ip ip) = ask method_delete (of_ip ip (codes "cancellation" ∷ [])) []

-- Every text among the arguments is made of bytes, and the text of an address has no byte that a
-- path would escape.
abbrev pub HasBytes : Operation → Type 0
HasBytes (start_rescue id o) =
    All (All IsByte) o.authorized_keys × All IsByte o.keyboard × All IsByte o.os
HasBytes (start_linux id o) =
    All (All IsByte) o.authorized_keys × All IsByte o.dist × All IsByte o.lang
HasBytes (start_vnc id o) = All IsByte o.dist × All IsByte o.lang
HasBytes (start_windows id lang os) = All IsByte lang × All IsByte os
HasBytes (get_ip ip) = All IsSelf ip.text
HasBytes (warn_ip ip enabled) = All IsSelf ip.text
HasBytes (get_ip_mac ip) = All IsSelf ip.text
HasBytes (set_ip_mac ip) = All IsSelf ip.text
HasBytes (delete_ip_mac ip) = All IsSelf ip.text
HasBytes (withdraw_ip ip) = All IsSelf ip.text
HasBytes _ = Unit

module _ {ℓ} (S : Session) {A : Type ℓ} (DL : Decoder (List A)) (D : Decoder A) where
  -- The world after the operation.
  unfoldable pub after : Operation → World S.env → World S.env
  after list_ips w = (Ip.list S DL w).1
  after (get_boot id) w = (Boot.get S D id w).1
  after (last_rescue id) w = (Boot.get_last_rescue S D id w).1
  after (last_linux id) w = (Boot.get_last_linux S D id w).1
  after (get_windows id) w = (Boot.get_windows S D id w).1
  after (stop_rescue id) w = (Boot.deactivate_rescue S id w).1
  after (stop_linux id) w = (Boot.deactivate_linux S id w).1
  after (stop_vnc id) w = (Boot.deactivate_vnc S id w).1
  after (stop_windows id) w = (Boot.deactivate_windows S id w).1
  after (start_rescue id o) w = (Boot.activate_rescue S D id o w).1
  after (start_linux id o) w = (Boot.activate_linux S D id o w).1
  after (start_vnc id o) w = (Boot.activate_vnc S D id o w).1
  after (start_windows id lang os) w = (Boot.activate_windows S D id lang os w).1
  after (get_ip ip) w = (Ip.get S D ip w).1
  after (warn_ip ip enabled) w = (Ip.set_traffic_warnings S D ip enabled w).1
  after (get_ip_mac ip) w = (Ip.get_mac S D ip w).1
  after (set_ip_mac ip) w = (Ip.set_mac S D ip w).1
  after (delete_ip_mac ip) w = (Ip.delete_mac S ip w).1
  after (withdraw_ip ip) w = (Ip.withdraw_ip_cancellation S ip w).1
