-- ===== src/Services/Ip.antt =====
-- ip.go: `IPService`. `net.IP` is a parameter: its text, and whether it is valid.
use hrobot_go.Base.{
  ℕ, Bool, not, ◌||◌, List, [], ◌++◌, Bytes, codes, none, some, ◌==◌, if◌then◌else◌,
}
use hrobot_go.Url.Values.{set}
use hrobot_go.Errors.{GoError, nil, new_policy_error, new_parse_error}
use hrobot_go.Client.Json.{Decoder}
use hrobot_go.Client.Methods
use hrobot_go.Client.Methods.{Session, Call, Done, and_then, return, reject, no_value}

-- `net.IP`: `String()`, and `validIP`, its number of bytes.
pub record NetIp : Type 0 where
  pub text : Bytes
  pub size : ℕ

pub record IpMac : Type 0 where
  pub ip : NetIp
  pub mac : Bytes

-- `ip.To16() != nil`, which is so for 4 and for 16 bytes.
unfoldable pub valid_ip : NetIp → Bool
valid_ip ip = ip.size == 4 || ip.size == 16

abbrev pub invalid_ip : GoError
invalid_ip = new_parse_error (codes "invalid ip address") nil

abbrev pub ip_path : NetIp → Bytes → Bytes
ip_path ip rest = codes "/ip/" ++ (ip.text ++ rest)

-- `A` is `IPAddress` or `IPMAC`.
module _ {ℓ} (S : Session) {A : Type ℓ} where
  unfoldable pub list : Decoder (List A) → Call S (List A)
  list D = Methods.get S D (codes "/ip")

  unfoldable pub get : Decoder A → NetIp → Call S A
  unfolding valid_ip
  get D ip =
      if not (valid_ip ip) then reject S invalid_ip else Methods.get S D (codes "/ip/" ++ ip.text)

  unfoldable pub set_traffic_warnings : Decoder A → NetIp → Bool → Call S A
  unfolding valid_ip
  set_traffic_warnings D ip enabled =
      if not (valid_ip ip)
      then reject S invalid_ip
      else Methods.post S D (codes "/ip/" ++ ip.text) (
          some (
            if enabled
            then set (codes "traffic_warnings") (codes "true") []
            else set (codes "traffic_warnings") (codes "false") []))

  unfoldable pub get_mac : Decoder A → NetIp → Call S A
  unfolding valid_ip
  get_mac D ip =
      if not (valid_ip ip) then reject S invalid_ip else Methods.get S D (ip_path ip (codes "/mac"))

  unfoldable pub set_mac : Decoder A → NetIp → Call S A
  unfolding valid_ip
  set_mac D ip =
      if not (valid_ip ip)
      then reject S invalid_ip
      else Methods.put S D (ip_path ip (codes "/mac")) none

module _ (S : Session) where
  unfoldable pub cancel_ip : NetIp → Bytes → Call S Done
  cancel_ip ip date = reject S (new_policy_error (codes "IPService.CancelIP"))

  unfoldable pub withdraw_ip_cancellation : NetIp → Call S Done
  unfolding valid_ip
  withdraw_ip_cancellation ip =
      if not (valid_ip ip)
      then reject S invalid_ip
      else Methods.delete S (ip_path ip (codes "/cancellation"))

  unfoldable pub delete_mac : NetIp → Call S Done
  unfolding valid_ip
  delete_mac ip =
      if not (valid_ip ip)
      then reject S invalid_ip
      else Methods.delete S (ip_path ip (codes "/mac"))
