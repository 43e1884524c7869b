-- ===== src/Services/Subnet.antt =====
-- subnet.go: `SubnetService`.
use hrobot_go.Base.{Option, Map, Bool, List, [], ◌++◌, Bytes, codes, format_bool, some, ℤ, itoa_int}
use hrobot_go.Url.Escape.{path_escape}
use hrobot_go.Url.Values.{set}
use hrobot_go.Errors.{new_policy_error}
use hrobot_go.Client.Json.{Decoder}
use hrobot_go.Client.Methods
use hrobot_go.Client.Methods.{Session, Call, Done, and_then, return, reject, no_value}

pub record SubnetResource : Type 0 where
  pub ip : Bytes
  pub mask : ℤ
  pub gateway : Bytes
  pub server_ip : Bytes
  pub server_number : ℤ
  pub failover : Bool
  pub locked : Bool
  pub traffic_warnings : Bool
  pub traffic_hourly : ℤ
  pub traffic_daily : ℤ
  pub traffic_monthly : ℤ

pub record SubnetMac : Type 0 where
  pub ip : Bytes
  pub mask : Bytes
  pub mac : Bytes
  pub possible_mac : Map Bytes

pub record SubnetCancellation : Type 0 where
  pub ip : Bytes
  pub mask : Bytes
  pub server_number : ℤ
  pub earliest_cancellation_date : Bytes
  pub cancelled : Bool
  pub cancellation_date : Option Bytes

-- The path of a subnet, and of what belongs to it.
abbrev pub subnet_path : Bytes → Bytes → Bytes
subnet_path net_ip rest = codes "/subnet/" ++ (path_escape net_ip ++ rest)

-- `A` is `SubnetResource`, `SubnetMAC` or `SubnetCancellation`.
module _ {ℓ} (S : Session) {A : Type ℓ} where
  unfoldable pub list : Decoder (List A) → Call S (List A)
  list D = Methods.get S D (codes "/subnet")

  unfoldable pub get : Decoder A → Bytes → Call S A
  get D net_ip = Methods.get S D (codes "/subnet/" ++ path_escape net_ip)

  unfoldable pub update : Decoder A → Bytes → Bool → ℤ → ℤ → ℤ → Call S A
  update D net_ip traffic_warnings traffic_hourly traffic_daily traffic_monthly =
      Methods.post S D (codes "/subnet/" ++ path_escape net_ip) (
        some (
          set (codes "traffic_monthly") (itoa_int traffic_monthly) (
            set (codes "traffic_daily") (itoa_int traffic_daily) (
              set (codes "traffic_hourly") (itoa_int traffic_hourly)
                (set (codes "traffic_warnings") (format_bool traffic_warnings) [])))))

  unfoldable pub get_mac : Decoder A → Bytes → Call S A
  get_mac D net_ip = Methods.get S D (subnet_path net_ip (codes "/mac"))

  unfoldable pub set_mac : Decoder A → Bytes → Bytes → Call S A
  set_mac D net_ip mac =
      Methods.put S D (subnet_path net_ip (codes "/mac")) (some (set (codes "mac") mac []))

  unfoldable pub get_cancellation : Decoder A → Bytes → Call S A
  get_cancellation D net_ip = Methods.get S D (subnet_path net_ip (codes "/cancellation"))

  unfoldable pub cancel : Bytes → Bytes → Call S A
  cancel net_ip date = reject S (new_policy_error (codes "SubnetService.Cancel"))

module _ (S : Session) where
  unfoldable pub delete_mac : Bytes → Call S Done
  delete_mac net_ip = Methods.delete S (subnet_path net_ip (codes "/mac"))

  unfoldable pub withdraw_cancellation : Bytes → Call S Done
  withdraw_cancellation net_ip = Methods.delete S (subnet_path net_ip (codes "/cancellation"))
