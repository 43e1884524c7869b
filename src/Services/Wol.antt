-- ===== src/Services/Wol.antt =====
-- wol.go: `WOLService`.
use hrobot_go.Base.{Bytes, ◌++◌, codes, none, ℤ, itoa_int}
use hrobot_go.Client.Json.{Decoder}
use hrobot_go.Client.Methods
use hrobot_go.Client.Methods.{Session, Call, Done, and_then, return, reject, no_value}

pub record WolResponse : Type 0 where
  pub server_ip : Bytes
  pub server_ipv6_net : Bytes
  pub server_number : ℤ

-- `A` is the type `WOLResponse`.
module _ {ℓ} (S : Session) {A : Type ℓ} (D : Decoder A) where
  unfoldable pub send : ℤ → Call S A
  send server_id = Methods.post S D (codes "/wol/" ++ itoa_int server_id) none

  unfoldable pub get : ℤ → Call S A
  get server_id = Methods.get S D (codes "/wol/" ++ itoa_int server_id)
