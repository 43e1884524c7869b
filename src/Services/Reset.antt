-- ===== src/Services/Reset.antt =====
-- reset.go: `ResetService`.
use hrobot_go.Base.{List, [], ◌++◌, Bytes, codes, some, ℤ, itoa_int}
use hrobot_go.Url.Values.{set}
use hrobot_go.Client.Json.{Decoder}
use hrobot_go.Client.Methods
use hrobot_go.Client.Methods.{Session, Call, Done, and_then, return, reject, no_value}

abbrev pub reset_type_software : Bytes
reset_type_software = codes "sw"

abbrev pub reset_type_hardware : Bytes
reset_type_hardware = codes "hw"

abbrev pub reset_type_power : Bytes
reset_type_power = codes "power"

-- `A` is the type `Reset`.
module _ {ℓ} (S : Session) {A : Type ℓ} where
  unfoldable pub list : Decoder (List A) → Call S (List A)
  list D = Methods.get S D (codes "/reset")

  unfoldable pub get : Decoder A → ℤ → Call S A
  get D server_id = Methods.get S D (codes "/reset/" ++ itoa_int server_id)

  unfoldable pub execute : Decoder A → ℤ → Bytes → Call S A
  execute D server_id reset_type =
      Methods.post S D (codes "/reset/" ++ itoa_int server_id)
        (some (set (codes "type") reset_type []))

  unfoldable pub execute_software : Decoder A → ℤ → Call S A
  execute_software D server_id = execute D server_id reset_type_software

  unfoldable pub execute_hardware : Decoder A → ℤ → Call S A
  execute_hardware D server_id = execute D server_id reset_type_hardware

  unfoldable pub execute_power : Decoder A → ℤ → Call S A
  execute_power D server_id = execute D server_id reset_type_power
