-- ===== src/Client/Request/Frame.antt =====
-- A run of `doRequest` does not depend on what was sent and waited for before it.
use hrobot_go.Base.{
  ℕ, zero, suc, ◌+◌, ◌≡◌, refl, ap, ◌∙◌, Bool, true, false, List, ◌++◌, Bytes, Bool-cases, inl, inr,
  not, ◌&&◌, ltb,
}
use hrobot_go.Errors.{GoError, nil, error, wrapped, other}
use hrobot_go.Client.Data.{Client, validate_credentials}
use hrobot_go.Client.World.{
  Method, Reply, responded, transport_error, Env, World, Exchange, RateLimit,
}
use hrobot_go.Client.Retry.{is_post, should_retry, update_rate_limit, keep_seen}
use hrobot_go.Client.Request.{
  request_to, Outcome, Next, return, continue, send, sleep_ctx, delay_for, after_reply, round,
  attempts, do_request, do_checked, checked_round, or_continue, backoff,
}

module _ (E : Env) (c : Client) (ys : List Exchange) (vs : List ℕ) where
  -- A world in which these were sent and waited for before.
  abbrev pub behind : World E → World E
  behind w = record w { exchanges = w.exchanges ++ ys; waits = w.waits ++ vs }

  abbrev pub shift : {A : Type 0} → A × World E → A × World E
  shift (a, w) = (a, behind w)

  or_continue-shift :
      (e : GoError) (p : GoError × World E)
      → or_continue E c e (shift p) ≡ shift (or_continue E c e p)
  or_continue-shift e (nil, w) = refl
  or_continue-shift e (error k s n t u, w) = refl
  or_continue-shift e (wrapped t u, w) = refl
  or_continue-shift e (other t, w) = refl

  sleep_ctx-shift : (d : ℕ) (w : World E) → sleep_ctx E c d (behind w) ≡ shift (sleep_ctx E c d w)
  unfolding sleep_ctx
  sleep_ctx-shift d w = refl

  keep_seen-behind :
      (p : RateLimit × Bool) (w : World E) → keep_seen E p (behind w) ≡ behind (keep_seen E p w)
  unfolding keep_seen
  keep_seen-behind (rl, true) w = refl
  keep_seen-behind (rl, false) w = refl

  update_rate_limit-behind :
      (h : Bytes → Bytes) (w : World E)
      → update_rate_limit E h (behind w) ≡ behind (update_rate_limit E h w)
  unfolding update_rate_limit
  update_rate_limit-behind h w = keep_seen-behind _ w

  send-shift :
      (m : Method) (path body : Bytes) (w : World E)
      → send E c (request_to E c m path body) (behind w)
        ≡ shift (send E c (request_to E c m path body) w)
  unfolding send
  send-shift m path body w = refl

  after_reply-shift :
      (m : Method) (attempt : ℕ) (e : GoError) (p : Reply × World E)
      → after_reply E c m attempt e (shift p) ≡ shift (after_reply E c m attempt e p)
  unfolding after_reply sleep_ctx delay_for
  after_reply-shift m attempt e (transport_error x, w) =
      elim (Bool-cases (not (is_post m) && ltb attempt 2)) [
        | inl t ↦ rw t (or_continue-shift _ (sleep_ctx E c (backoff attempt) w))
        | inr f ↦ rw f refl
      ]
  after_reply-shift m attempt e (responded r, w) =
      let w' = update_rate_limit E r.header w in
      rw (update_rate_limit-behind r.header w)
        (elim (Bool-cases (should_retry m r.status_code attempt && ltb attempt 2)) [
          | inl t ↦ rw t (or_continue-shift e (sleep_ctx E c (delay_for E c r attempt w') w'))
          | inr f ↦ rw f refl
        ])

  checked_round-shift :
      (ended bad : GoError) (m : Method) (path body : Bytes) (attempt : ℕ) (e : GoError)
      (w : World E)
      → checked_round E c ended bad m path body attempt e (behind w)
        ≡ shift (checked_round E c ended bad m path body attempt e w)
  unfolding send
  checked_round-shift nil nil m path body attempt e w =
      after_reply-shift m attempt e (send E c (request_to E c m path body) w)
  checked_round-shift nil (error k s n t u) m path body attempt e w = refl
  checked_round-shift nil (wrapped t u) m path body attempt e w = refl
  checked_round-shift nil (other t) m path body attempt e w = refl
  checked_round-shift (error k s n t u) bad m path body attempt e w = refl
  checked_round-shift (wrapped t u) bad m path body attempt e w = refl
  checked_round-shift (other t) bad m path body attempt e w = refl

  round-shift :
      (m : Method) (path body : Bytes) (attempt : ℕ) (e : GoError) (w : World E)
      → round E c m path body attempt e (behind w) ≡ shift (round E c m path body attempt e w)
  unfolding round
  round-shift m path body attempt e w =
      checked_round-shift (E.done w.outside) (E.request_error m (c.base_url ++ path)) m path body
        attempt e w

  attempts-shift :
      (left : ℕ) (m : Method) (path body : Bytes) (attempt : ℕ) (e : GoError) (w : World E)
      → attempts E c left m path body attempt e (behind w)
        ≡ shift (attempts E c left m path body attempt e w)
  unfolding attempts
  attempts-shift zero m path body attempt e w = refl
  attempts-shift (suc left) m path body attempt e w =
      ap behind_round (round-shift m path body attempt e w)
      ∙ go (round E c m path body attempt e w)
          (λ e' w'. attempts-shift left m path body (attempt + 1) e' w')
    where
      behind_round : Next × World E → Outcome × World E
      behind_round p = elim p.0 [
        | return out ↦ (out, p.1)
        | continue e' ↦ attempts E c left m path body (attempt + 1) e' p.1
      ]

      go :
          (p : Next × World E)
          → ((e' : GoError) (w' : World E)
              → attempts E c left m path body (attempt + 1) e' (behind w')
                ≡ shift (attempts E c left m path body (attempt + 1) e' w'))
          → behind_round (shift p) ≡ shift (behind_round p)
      go (return out, w') ih = refl
      go (continue e', w') ih = ih e' w'

  do_checked-shift :
      (bad bad_url : GoError) (m : Method) (path body : Bytes) (w : World E)
      → do_checked E c bad bad_url m path body (behind w)
        ≡ shift (do_checked E c bad bad_url m path body w)
  do_checked-shift nil nil m path body w = attempts-shift 3 m path body 0 nil w
  do_checked-shift nil (error k s n t u) m path body w = refl
  do_checked-shift nil (wrapped t u) m path body w = refl
  do_checked-shift nil (other t) m path body w = refl
  do_checked-shift (error k s n t u) bad m path body w = refl
  do_checked-shift (wrapped t u) bad m path body w = refl
  do_checked-shift (other t) bad m path body w = refl

  -- What was sent and waited for before stays behind what the run adds, and changes nothing else.
  pub do_request-shift :
      (m : Method) (path body : Bytes) (w : World E)
      → do_request E c m path body (behind w) ≡ shift (do_request E c m path body w)
  unfolding do_request
  do_request-shift m path body w =
      do_checked-shift (validate_credentials c.username c.password) c.base_url_err m path body w
