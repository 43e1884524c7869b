-- ===== src/Client/Request/Failures.antt =====
-- What a failure of `doRequest` says.
use hrobot_go.Base.{ℕ, ◌≡◌, ◌≢◌, ◌<◌, List, ◌∷◌, ◌++◌, Bytes, codes}
use hrobot_go.Errors.{GoError, nil, new_network_error}
use hrobot_go.Client.Data.{Client, validate_credentials}
use hrobot_go.Client.World.{Method, Env, World, Exchange, transport_error}
use hrobot_go.Client.Request.{Outcome, received, failed, Next, return, continue}

module _ (E : Env) (c : Client) (m : Method) (path : Bytes) where
  -- Where a failure comes from: the checks before the first round, the request, the context between
  -- rounds or during a wait, or the transport in the last round trip. But for the checks, the failure
  -- is a network error that wraps the cause.
  pub data Failure (e : GoError) (w : World E) : Type 0 where
    bad_credentials : validate_credentials c.username c.password ≡ e → Failure e w
    bad_base_url : c.base_url_err ≡ e → Failure e w
    no_request :
        (cause : GoError)
        → E.request_error m (c.base_url ++ path) ≡ cause
        → e ≡ new_network_error (codes "failed to create request") cause
        → Failure e w
    context_ended :
        (cause : GoError) (s : E.State)
        → E.done s ≡ cause
        → cause ≢ nil
        → e ≡ new_network_error (codes "request cancelled") cause
        → Failure e w
    wait_ended :
        (cause : GoError) (d : ℕ) (s : E.State)
        → (E.wait d s).0 ≡ cause
        → cause ≢ nil
        → e ≡ new_network_error (codes "request cancelled") cause
        → Failure e w
    not_answered :
        (cause : GoError) (x : Exchange) (xs : List Exchange)
        → w.exchanges ≡ x ∷ xs
        → x.reply ≡ transport_error cause
        → e ≡ new_network_error (codes "request failed") cause
        → Failure e w

  -- A response, or a failure that is told.
  Told : Outcome × World E → Type 0
  Told (received resp, w) = Unit
  Told (failed e, w) = (e ≢ nil) × Failure e w

  AfterRound : ℕ → Next × World E → Type 0
  AfterRound attempt (return out, w) = Told (out, w)
  AfterRound attempt (continue e, w) = attempt < 2
