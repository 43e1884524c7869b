-- ===== src/Services/Server.antt =====
-- server.go: `ServerService`.
use hrobot_go.Base.{List, [], ◌∷◌, ◌++◌, Bytes, codes, some, ℤ, itoa_int}
use hrobot_go.Errors.{new_policy_error}
use hrobot_go.Client.Json.{Decoder}
use hrobot_go.Client.Wait.{encode_form}
use hrobot_go.Client.Methods
use hrobot_go.Client.Methods.{Session, Call, Done, and_then, return, reject, no_value}

abbrev pub server_path : ℤ → Bytes
server_path id = codes "/server/" ++ itoa_int id

pub record Cancellation : Type 0 where
  pub server_id : ℤ
  pub cancellation_date : Bytes
  pub cancellation_reason : Bytes

-- `A` is the type `Server`, which is read by the decoder and passed on.
module _ {ℓ} (S : Session) {A : Type ℓ} where
  unfoldable pub list : Decoder (List A) → Call S (List A)
  list D = Methods.get S D (codes "/server")

  unfoldable pub get : Decoder A → ℤ → Call S A
  get D server_id = Methods.get S D (server_path server_id)

  unfoldable pub set_name : Decoder A → ℤ → Bytes → Call S A
  set_name D server_id name =
      Methods.post S D (server_path server_id)
        (some (encode_form ((codes "server_name", name) ∷ [])))

module _ (S : Session) where
  unfoldable pub request_cancellation : Cancellation → Call S Done
  request_cancellation c = reject S (new_policy_error (codes "ServerService.RequestCancellation"))

  unfoldable pub withdraw_cancellation : ℤ → Call S Done
  withdraw_cancellation server_id =
      Methods.delete S (codes "/server/" ++ (itoa_int server_id ++ codes "/cancellation"))
