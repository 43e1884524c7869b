-- ===== src/Client/Methods.antt =====
-- client.go: the methods that send one request and handle its response; and the calls that the
-- services are made of.
use hrobot_go.Base.{Bytes, [], Option, none, some}
use hrobot_go.Url.Values.{Values, encode}
use hrobot_go.Errors.{GoError, Result, ok, fail}
use hrobot_go.Client.Data.{Client}
use hrobot_go.Client.World.{Method, method_get, method_post, method_put, method_delete, Env, World}
use hrobot_go.Client.Json.{Json, Decoder}
use hrobot_go.Client.Request.{Outcome, received, failed, do_request}
use hrobot_go.Client.Response.{handle_response}

-- A client, with what it acts on and how it reads JSON.
pub record Session : Type 1 where
  pub env : Env
  pub json : Json
  pub client : Client

-- An operation: it passes the world on, and gives a value or an error.
abbrev pub Call {ℓ} : Session → Type ℓ → Type ℓ
Call S A = World S.env → Result A × World S.env

module _ {ℓ} (S : Session) {A : Type ℓ} where
  abbrev pub return : A → Call S A
  return a w = (ok a, w)

  abbrev pub reject : GoError → Call S A
  reject e w = (fail e, w)

-- `if err != nil { return nil, err }` after a call.
abbrev pub on_value {ℓ κ} :
    (S : Session) {A : Type ℓ} {B : Type κ}
    → (A → Call S B)
    → Result A × World S.env
    → Result B × World S.env
on_value S f (ok a, w) = f a w
on_value S f (fail e, w) = (fail e, w)

abbrev pub and_then {ℓ κ} :
    (S : Session) {A : Type ℓ} {B : Type κ} → Call S A → (A → Call S B) → Call S B
and_then S m f w = on_value S f (m w)

-- The value of an operation that gives an error or nothing.
abbrev pub Done : Type 0
Done = Unit {0}

-- `v == nil`: the payload is not decoded.
abbrev pub no_value : Decoder Done
no_value = record { zero_value = tt; unmarshal = λ text. ok tt }

-- `strings.NewReader(data.Encode())`, or no body where the values are nil.
abbrev pub form_body : Option Values → Bytes
form_body none = []
form_body (some values) = encode values

module _ {ℓ} (S : Session) {A : Type ℓ} (D : Decoder A) where
  -- `doRequest` gives a response or an error that is not nil.
  abbrev pub respond : Outcome × World S.env → Result A × World S.env
  respond (received resp, w) = (handle_response S.json D S.client.max_response_bytes resp, w)
  respond (failed e, w) = (fail e, w)

  unfoldable pub perform : Method → Bytes → Bytes → Call S A
  perform method path body w = respond (do_request S.env S.client method path body w)

  unfoldable pub get : Bytes → Call S A
  unfolding perform
  get path = perform method_get path []

  unfoldable pub post : Bytes → Option Values → Call S A
  unfolding perform
  post path values = perform method_post path (form_body values)

  unfoldable pub post_raw : Bytes → Bytes → Call S A
  unfolding perform
  post_raw path text = perform method_post path text

  unfoldable pub delete_raw : Bytes → Bytes → Call S A
  unfolding perform
  delete_raw path text = perform method_delete path text

  unfoldable pub put : Bytes → Option Values → Call S A
  unfolding perform
  put path values = perform method_put path (form_body values)

  unfoldable pub delete_with_body : Bytes → Option Values → Call S A
  unfolding perform
  delete_with_body path values = perform method_delete path (form_body values)

unfoldable pub delete : (S : Session) → Bytes → Call S Done
unfolding perform
delete S path = perform S no_value method_delete path []
