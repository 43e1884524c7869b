-- ===== src/Client/Request/Trace.antt =====
-- The trace of a run of `doRequest`, and what one round of its loop adds to it.
use hrobot_go.Base.{
  ℕ, zero, suc, ◌+◌, ◌*◌, ◌<◌, ◌≤◌, ◌≡◌, ◌≢◌, ◌⊎◌, inl, inr, refl, ap, ◌∙◌, Bool, true, false, not,
  ◌&&◌, List, [], ◌∷◌, ◌++◌, Bytes, codes, ltb, arith, length, All, if_lem, max,
}
use hrobot_go.Errors.{GoError, nil, error, wrapped, other, new_network_error}
use hrobot_go.Client.Data.{Client, millisecond}
use hrobot_go.Client.World.{
  Method, Response, Reply, responded, transport_error, Env, World, Exchange, RateLimit,
}
use hrobot_go.Client.Retry.{is_post, should_retry, retry_after, update_rate_limit, keep_seen}
use hrobot_go.Client.Retry.Laws.{retry_after-le, MayRepeat, should_retry-MayRepeat}
use hrobot_go.Client.Request.{
  Outcome, received, failed, Next, return, continue, request_to, send, sleep_ctx, delay_for,
  after_reply, round, retry_delay, cancelled, or_continue, checked_round,
}

again : (b : Bool) (attempt : ℕ) → b && ltb attempt 2 ≡ true → (b ≡ true) × (attempt < 2)
again true attempt h = (refl, ground arith)
again false attempt h = ground arith

last :
    (b : Bool) (attempt : ℕ)
    → attempt ≤ 2
    → b && ltb attempt 2 ≡ false
    → (b ≡ false) ⊎ (attempt ≡ 2)
last true attempt le h = inr (ground arith)
last false attempt le h = inl refl

module _ (E : Env) (c : Client) (m : Method) (path body : Bytes) where
  -- The bound of one wait: the ceiling on Retry-After, or the longest backoff.
  abbrev pub longest_wait : ℕ
  longest_wait = max c.max_retry_after (1000 * millisecond)

  abbrev pub IsRepeat : Exchange → Type 0
  IsRepeat x = MayRepeat m x.reply × (x.request ≡ request_to E c m path body)

  abbrev pub IsShort : ℕ → Type 0
  IsShort d = d ≤ longest_wait

  -- The trace before the round `attempt`: every reply so far allowed another request.
  abbrev pub Before : ℕ → World E → Type 0
  Before attempt w =
      (length w.exchanges ≡ attempt)
      × All IsRepeat w.exchanges
      × (length w.waits ≡ attempt)
      × All IsShort w.waits

  -- The trace of a whole run, the latest exchange first.
  abbrev pub IsTrace : List Exchange → Type 0
  IsTrace [] = Unit
  IsTrace (x ∷ xs) = (x.request ≡ request_to E c m path body) × All IsRepeat xs

  -- How the outcome comes from the trace: a response is the last reply, and one that is not
  -- retried or that the third request got; an error is not nil.
  abbrev pub Explains : Outcome → List Exchange → Type 0
  Explains (received r) [] = ⊥
  Explains (received r) (x ∷ xs) =
      (x.reply ≡ responded r)
      × ((should_retry m r.status_code (length xs) ≡ false) ⊎ (length xs ≡ 2))
  Explains (failed e) xs = e ≢ nil

  pub record After (out : Outcome) (w : World E) : Type 0 where
    pub few_exchanges : length w.exchanges ≤ 3
    pub few_waits : length w.waits ≤ 2
    pub trace : IsTrace w.exchanges
    pub short : All IsShort w.waits
    pub explained : Explains out w.exchanges

  -- What is true of a run that has ended.
  abbrev pub Ends : Outcome × World E → Type 0
  Ends (out, w) = After out w

  abbrev pub AfterRound : ℕ → Next × World E → Type 0
  AfterRound attempt (return out, w) = After out w
  AfterRound attempt (continue e, w) = Before (attempt + 1) w × (attempt < 2)

  -- The state in which a reply has come and nothing was waited for since.
  abbrev Replied : ℕ → Reply → List Exchange → World E → Type 0
  Replied attempt reply xs w =
      (w.exchanges ≡ record { request = request_to E c m path body; reply = reply } ∷ xs)
      × (length xs ≡ attempt)
      × All IsRepeat xs
      × (length w.waits ≡ attempt)
      × All IsShort w.waits

  network_error_ne_nil : (text : Bytes) (e : GoError) → new_network_error text e ≢ nil
  unfolding new_network_error
  network_error_ne_nil text e h = cc

  return-After :
      (attempt : ℕ) (reply : Reply) (xs : List Exchange) (w : World E) (out : Outcome)
      → attempt ≤ 2
      → Replied attempt reply xs w
      → Explains out (record { request = request_to E c m path body; reply = reply } ∷ xs)
      → After out w
  return-After attempt reply xs w out h r e = record {
    few_exchanges = omega (arith, ap (λ l. length l) r.0, r.1);
    few_waits = omega (arith, r.3);
    trace = rw r.0 (refl, r.2);
    short = r.4;
    explained = rw r.0 e;
  }

  continue_after :
      (attempt d : ℕ) (reply : Reply) (xs : List Exchange) (w : World E) (last_err : GoError)
      → attempt < 2
      → Replied attempt reply xs w
      → MayRepeat m reply
      → d ≤ longest_wait
      → AfterRound attempt (or_continue E c last_err (sleep_ctx E c d w))
  unfolding sleep_ctx new_network_error
  continue_after attempt d reply xs w last_err h r may short = go (E.wait d w.outside)
    where
      later : E.State → World E
      later o = record w { outside = o; waits = d ∷ w.waits }

      stopped : (o : E.State) (e : GoError) → e ≢ nil → After (failed e) (later o)
      stopped o e ne = record {
        few_exchanges = omega (arith, ap (λ l. length l) r.0, r.1);
        few_waits = omega (arith, r.3);
        trace = rw r.0 (refl, r.2);
        short = (short, r.4);
        explained = ne;
      }

      go :
          (p : GoError × E.State)
          → AfterRound attempt (or_continue E c last_err (cancelled E c p.0, later p.1))
      go (nil, o) = (
        (
          ap (λ l. length l) r.0 ∙ omega (arith, r.1),
          rw r.0 ((may, refl), r.2),
          omega (arith, r.3),
          (short, r.4),
        ),
        h,
      )
      go (error k s n t u, o) = stopped o _ (network_error_ne_nil _ _)
      go (wrapped t u, o) = stopped o _ (network_error_ne_nil _ _)
      go (other t, o) = stopped o _ (network_error_ne_nil _ _)

  Replied-update :
      (header : Bytes → Bytes) (attempt : ℕ) (reply : Reply) (xs : List Exchange) (w : World E)
      → Replied attempt reply xs w
      → Replied attempt reply xs (update_rate_limit E header w)
  unfolding update_rate_limit
  Replied-update header attempt reply xs w r = go _
    where
      go : (p : RateLimit × Bool) → Replied attempt reply xs (keep_seen E p w)
      go (rl, true) = unfold keep_seen in r
      go (rl, false) = unfold keep_seen in r

  delay_short :
      (resp : Response) (attempt : ℕ) (w : World E)
      → attempt < 2
      → delay_for E c resp attempt w ≤ longest_wait
  unfolding delay_for
  delay_short resp attempt w h =
      go
        (retry_after E.parse_time (E.now w.outside) (resp.header (codes "Retry-After"))
          c.max_retry_after)
        (retry_after-le _ _ _ _)
    where
      go : (d : ℕ) → d ≤ c.max_retry_after → retry_delay E c d attempt ≤ longest_wait
      go zero le = omega arith
      go (suc d) le = omega arith

  after_reply_lem :
      (attempt : ℕ) (reply : Reply) (xs : List Exchange) (w : World E) (last_err : GoError)
      → attempt ≤ 2
      → Replied attempt reply xs w
      → AfterRound attempt (after_reply E c m attempt last_err (reply, w))
  unfolding after_reply
  after_reply_lem attempt (transport_error e) xs w last_err h r =
      if_lem (AfterRound attempt) (not (is_post m) && ltb attempt 2) _ _
        (λ t.
          continue_after attempt _ (transport_error e) xs w _ (ground arith) r (ground arith)
            (ground arith))
        (λ f. return-After attempt (transport_error e) xs w _ h r (network_error_ne_nil _ _))
  after_reply_lem attempt (responded resp) xs w last_err h r =
      let w' = update_rate_limit E resp.header w in
      let r' = Replied-update resp.header attempt (responded resp) xs w r in
      if_lem (AfterRound attempt) (should_retry m resp.status_code attempt && ltb attempt 2) _ _
        (λ t.
          continue_after attempt (delay_for E c resp attempt w') (responded resp) xs w' _
            (again _ attempt t).1 r' (should_retry-MayRepeat m resp attempt (again _ attempt t).0)
            (delay_short resp attempt w' (again _ attempt t).1))
        (λ f.
          return-After attempt (responded resp) xs w' _ h r' (refl, rw r.1 (last _ attempt h f)))

  All-IsTrace : (xs : List Exchange) → All IsRepeat xs → IsTrace xs
  All-IsTrace [] h = h
  All-IsTrace (x ∷ xs) h = (h.0.1, h.1)

  pub round_lem :
      (attempt : ℕ) (last_err : GoError) (w : World E)
      → attempt ≤ 2
      → Before attempt w
      → AfterRound attempt (round E c m path body attempt last_err w)
  unfolding round send
  round_lem attempt last_err w h b = go (E.done w.outside) (E.request_error m (c.base_url ++ path))
    where
      stopped : (text : Bytes) (e : GoError) → After (failed (new_network_error text e)) w
      stopped text e = record {
        few_exchanges = omega (arith, b.0);
        few_waits = omega (arith, b.2);
        trace = All-IsTrace w.exchanges b.1;
        short = b.3;
        explained = network_error_ne_nil text e;
      }

      go :
          (ended bad : GoError)
          → AfterRound attempt (checked_round E c ended bad m path body attempt last_err w)
      go nil nil = after_reply_lem attempt _ w.exchanges _ last_err h (refl, b.0, b.1, b.2, b.3)
      go nil (error k s n t u) = stopped _ _
      go nil (wrapped t u) = stopped _ _
      go nil (other t) = stopped _ _
      go (error k s n t u) bad = stopped _ _
      go (wrapped t u) bad = stopped _ _
      go (other t) bad = stopped _ _
