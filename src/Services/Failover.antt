-- ===== src/Services/Failover.antt =====
-- failover.go: `FailoverService`.
use hrobot_go.Base.{ℤ, Option, List, [], ◌++◌, Bytes, codes, some}
use hrobot_go.Url.Escape.{path_escape}
use hrobot_go.Url.Values.{set}
use hrobot_go.Client.Json.{Decoder}
use hrobot_go.Client.Methods
use hrobot_go.Client.Methods.{Session, Call, Done, and_then, return, reject, no_value}

pub record Failover : Type 0 where
  pub ip : Bytes
  pub netmask : Bytes
  pub server_ip : Bytes
  pub server_ipv6_net : Bytes
  pub server_number : ℤ
  pub active_server_ip : Option Bytes

abbrev pub failover_path : Bytes → Bytes
failover_path ip = codes "/failover/" ++ path_escape ip

-- `A` is the type `Failover`.
module _ {ℓ} (S : Session) {A : Type ℓ} where
  unfoldable pub list : Decoder (List A) → Call S (List A)
  list D = Methods.get S D (codes "/failover")

  unfoldable pub get : Decoder A → Bytes → Call S A
  get D ip = Methods.get S D (failover_path ip)

  unfoldable pub update : Decoder A → Bytes → Bytes → Call S A
  update D ip active_server_ip =
      Methods.post S D (failover_path ip)
        (some (set (codes "active_server_ip") active_server_ip []))

unfoldable pub delete : (S : Session) → Bytes → Call S Done
delete S ip = Methods.delete S (failover_path ip)
