-- ===== src/Client/Request.antt =====
-- client.go: `doRequest` and `sleepCtx`.
pub mod Trace
pub mod Laws
pub mod Local
pub mod Frame
pub mod Failures
use hrobot_go.Base.{
  ℕ, zero, suc, ◌+◌, ◌-◌, ◌*◌, ◌≡◌, refl, Bool, true, false, not, ◌&&◌, ◌||◌, List, [], ◌∷◌, ◌++◌,
  Bytes, codes, ltb, ◌==◌, if◌then◌else◌,
}
use hrobot_go.Errors.{GoError, nil, error, wrapped, other, new_network_error}
use hrobot_go.Client.Data.{Client, millisecond, validate_credentials}
use hrobot_go.Client.World.{
  Method, Request, Response, Reply, responded, transport_error, Env, World, Exchange, Body,
}
use hrobot_go.Client.Retry.{is_post, should_retry, retry_after, update_rate_limit}

abbrev pub is_nil : GoError → Bool
is_nil nil = true
is_nil _ = false

-- The pair that `doRequest` returns: a response, or an error. `failed nil` is the pair of nils.
pub data Outcome : Type 0 where
  received : Response → Outcome
  failed : GoError → Outcome

abbrev pub max_retries : ℕ
max_retries = 3

-- `time.Duration(attempt+1) * 500 * time.Millisecond`.
abbrev pub backoff : ℕ → ℕ
backoff attempt = (attempt + 1) * (500 * millisecond)

abbrev pub is_form : Bytes → Bool
is_form [] = false
is_form (c ∷ s) = true

-- What one round of the loop comes to: a return, or `continue` with the variable `lastErr`.
pub data Next : Type 0 where
  return : Outcome → Next
  continue : GoError → Next

module _ (E : Env) (c : Client) where
  abbrev pub request_to : Method → Bytes → Bytes → Request
  request_to method path body_bytes = record {
    method = method;
    url = c.base_url ++ path;
    body = body_bytes;
    username = c.username;
    password = c.password;
    user_agent = c.user_agent;
    form = is_form body_bytes;
  }

  -- `httpClient.Do`.
  pub send : Request → World E → Reply × World E
  send req w =
      let (reply, outside) = E.do_http req w.outside in
      (
        reply,
        record w {
          outside = outside;
          exchanges = record { request = req; reply = reply } ∷ w.exchanges;
        },
      )

  abbrev cancelled : GoError → GoError
  cancelled nil = nil
  cancelled cause = new_network_error (codes "request cancelled") cause

  pub sleep_ctx : ℕ → World E → GoError × World E
  sleep_ctx d w =
      let (stopped, outside) = E.wait d w.outside in
      (cancelled stopped, record w { outside = outside; waits = d ∷ w.waits })

  -- Sleep, then return the error or go on.
  abbrev or_continue : GoError → GoError × World E → Next × World E
  or_continue last_err (nil, w) = (continue last_err, w)
  or_continue last_err (e, w) = (return (failed e), w)

  abbrev retry_delay : ℕ → ℕ → ℕ
  retry_delay zero attempt = backoff attempt
  retry_delay (suc d) attempt = suc d

  delay_for : Response → ℕ → World E → ℕ
  delay_for resp attempt w =
      retry_delay
        (retry_after E.parse_time (E.now w.outside) (resp.header (codes "Retry-After"))
          c.max_retry_after)
        attempt

  after_reply : Method → ℕ → GoError → Reply × World E → Next × World E
  after_reply method attempt last_err (transport_error e, w) =
      let last_err' = new_network_error (codes "request failed") e in
      if not (is_post method) && ltb attempt (max_retries - 1)
      then or_continue last_err' (sleep_ctx (backoff attempt) w)
      else (return (failed last_err'), w)
  after_reply method attempt last_err (responded resp, w) =
      let w' = update_rate_limit E resp.header w in
      if should_retry method resp.status_code attempt && ltb attempt (max_retries - 1)
      then or_continue last_err (sleep_ctx (delay_for resp attempt w') w')
      else (return (received resp), w')

  -- A round, behind the test of the context and of the request.
  abbrev checked_round :
      GoError → GoError → Method → Bytes → Bytes → ℕ → GoError → World E → Next × World E
  checked_round nil nil method path body_bytes attempt last_err w =
      after_reply method attempt last_err (send (request_to method path body_bytes) w)
  checked_round nil bad method path body_bytes attempt last_err w =
      (return (failed (new_network_error (codes "failed to create request") bad)), w)
  checked_round ended bad method path body_bytes attempt last_err w =
      (return (failed (new_network_error (codes "request cancelled") ended)), w)

  pub round : Method → Bytes → Bytes → ℕ → GoError → World E → Next × World E
  round method path body_bytes attempt last_err w =
      checked_round (E.done w.outside) (E.request_error method (c.base_url ++ path)) method path
        body_bytes attempt last_err w

  -- The loop with the number of rounds that are left.
  pub attempts : ℕ → Method → Bytes → Bytes → ℕ → GoError → World E → Outcome × World E
  attempts zero method path body_bytes attempt last_err w = (failed last_err, w)
  attempts (suc left) method path body_bytes attempt last_err w =
      let (next, w') = round method path body_bytes attempt last_err w in
      elim next [
        | return outcome ↦ (outcome, w')
        | continue last_err' ↦ attempts left method path body_bytes (attempt + 1) last_err' w'
      ]

  abbrev do_checked : GoError → GoError → Method → Bytes → Bytes → World E → Outcome × World E
  do_checked nil nil method path body_bytes w = attempts max_retries method path body_bytes 0 nil w
  do_checked nil bad_url method path body_bytes w = (failed bad_url, w)
  do_checked bad_credentials bad_url method path body_bytes w = (failed bad_credentials, w)

  -- `body_bytes` is what reading the body gives; the bodies that the client builds are texts, whose
  -- reading does not fail.
  unfoldable pub do_request : Method → Bytes → Bytes → World E → Outcome × World E
  unfolding validate_credentials attempts round after_reply send sleep_ctx delay_for should_retry
      retry_after update_rate_limit
  do_request method path body_bytes w =
      do_checked (validate_credentials c.username c.password) c.base_url_err method path body_bytes
        w
