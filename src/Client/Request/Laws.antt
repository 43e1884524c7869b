-- ===== src/Client/Request/Laws.antt =====
-- What a run of `doRequest` sends, how long it waits, and what it returns.
use hrobot_go.Base.{ℕ, zero, suc, ◌+◌, ◌≡◌, ◌≢◌, refl, [], Bytes, arith}
use hrobot_go.Errors.{GoError, nil, error, wrapped, other}
use hrobot_go.Client.Data.{Client, validate_credentials}
use hrobot_go.Client.World.{Method, Env, World}
use hrobot_go.Client.Request.{
  failed, Next, return, continue, round, attempts, do_request, do_checked,
}
use hrobot_go.Client.Request.Trace.{After, Ends, Before, AfterRound, round_lem}

module _ (E : Env) (c : Client) (m : Method) (path body : Bytes) where
  attempts_lem :
      (left attempt : ℕ) (last_err : GoError) (w : World E)
      → attempt + left ≡ 2
      → Before E c m path body attempt w
      → Ends E c m path body (attempts E c (suc left) m path body attempt last_err w)
  unfolding attempts
  attempts_lem zero attempt last_err w h b =
      go _ (round_lem E c m path body attempt last_err w (omega arith) b)
    where
      go :
          (p : Next × World E)
          → AfterRound E c m path body attempt p
          → Ends E c m path body (elim p.0 [
            | return outcome ↦ (outcome, p.1)
            | continue e ↦ attempts E c 0 m path body (attempt + 1) e p.1
          ])
      go (return out, w') a = a
      go (continue e, w') a = absurd (omega (arith, a.1, h))
  attempts_lem (suc left) attempt last_err w h b =
      go (λ e w' b'. attempts_lem left (attempt + 1) e w' (omega (arith, h)) b')
        (round E c m path body attempt last_err w)
        (round_lem E c m path body attempt last_err w (omega arith) b)
    where
      go :
          ((e : GoError) (w' : World E)
            → Before E c m path body (attempt + 1) w'
            → Ends E c m path body (attempts E c (suc left) m path body (attempt + 1) e w'))
          → (p : Next × World E) → AfterRound E c m path body attempt p
          → Ends E c m path body (elim p.0 [
            | return outcome ↦ (outcome, p.1)
            | continue e ↦ attempts E c (suc left) m path body (attempt + 1) e p.1
          ])
      go ih (return out, w') a = a
      go ih (continue e, w') a = ih e w' a.0

  -- A call, from a state in which nothing was sent or waited for: it sends the request at most
  -- three times and waits at most twice, never longer than the larger of the ceiling on
  -- Retry-After and one second; it repeats a POST only after a 401 or a 429; a response that it
  -- returns is the last reply, which is not to be retried or is the third; and it never returns
  -- a nil response with a nil error.
  pub do_request-Ends :
      (w : World E)
      → w.exchanges ≡ []
      → w.waits ≡ []
      → Ends E c m path body (do_request E c m path body w)
  unfolding do_request
  do_request-Ends w x v = go (validate_credentials c.username c.password) c.base_url_err
    where
      stopped : (e : GoError) → e ≢ nil → After E c m path body (failed e) w
      stopped e ne = record {
        few_exchanges = rw x (omega arith);
        few_waits = rw v (omega arith);
        trace = rw x tt;
        short = rw v tt;
        explained = ne;
      }

      go : (bad bad_url : GoError) → Ends E c m path body (do_checked E c bad bad_url m path body w)
      go nil nil = attempts_lem 2 0 nil w refl (rw x refl, rw x tt, rw v refl, rw v tt)
      go nil (error k s n t u) = stopped _ (λ p. cc)
      go nil (wrapped t u) = stopped _ (λ p. cc)
      go nil (other t) = stopped _ (λ p. cc)
      go (error k s n t u) bad = stopped _ (λ p. cc)
      go (wrapped t u) bad = stopped _ (λ p. cc)
      go (other t) bad = stopped _ (λ p. cc)
