-- ===== src/Client/Wait/Laws.antt =====
-- What a run of `waitForCondition` goes through.
use hrobot_go.Base.{
  ℕ, zero, suc, ◌+◌, ◌-◌, ◌*◌, ◌^◌, ◌<◌, ◌≡◌, ◌↔◌, refl, sym, ap, ◌∙◌, Bool, true, false, codes,
  min, arith,
}
use native.Mathlib.Numerals.{unary_clauses}
use hrobot_go.Errors.{GoError, nil, error, wrapped, other, Result, ok, fail}
use hrobot_go.Client.Data.{second}
use hrobot_go.Client.World.{World}
use hrobot_go.Client.Methods.{Session, Call, Done}
use hrobot_go.Client.Wait.{
  Poll, over, again, pause, poll, polls, after_condition, after_pause, wait_for_condition,
  next_delay, min_delay, max_polls, cancelled_wait,
}

next_doubles :
    (n d : ℕ) → d ≡ min (2 ^ (n + 1)) 30 * second → next_delay d ≡ min (2 ^ (suc n + 1)) 30 * second
next_doubles n d h = ground (arith, h, pow_suc n)
  where
    pow_suc : (n : ℕ) → 2 ^ (suc n + 1) ≡ 2 * 2 ^ (n + 1)
    pow_suc n = simp unary_clauses (omega arith)

module _ (S : Session) (condition : Call S Bool) where
  -- `Polling n d w w'`: from `w`, n rounds found the condition false and waited, to `w'`; the next
  -- wait is d.
  pub data Polling : ℕ → ℕ → World S.env → World S.env → Type 0 where
    start : (w : World S.env) → Polling 0 min_delay w w
    next :
        {n d : ℕ} {w w₁ w₂ w₃ : World S.env}
        → Polling n d w w₁
        → S.env.done w₁.outside ≡ nil
        → condition w₁ ≡ (ok false, w₂)
        → pause S d w₂ ≡ (nil, w₃)
        → Polling (suc n) (next_delay d) w w₃

  -- A round that found the condition true.
  abbrev pub Success : World S.env → World S.env → Type 0
  Success w w' = (S.env.done w.outside ≡ nil) × (condition w ≡ (ok true, w'))

  poll-next :
      (d : ℕ) (w w₂ w₃ : World S.env)
      → S.env.done w.outside ≡ nil
      → condition w ≡ (ok false, w₂)
      → pause S d w₂ ≡ (nil, w₃)
      → poll S condition d w ≡ (again, w₃)
  unfolding poll
  poll-next d w w₂ w₃ live c p = rw live (rw c (ap (after_pause S) p))

  polls-again :
      (left d : ℕ) (w w' : World S.env)
      → poll S condition d w ≡ (again, w')
      → polls S condition (suc left) d w ≡ polls S condition left (next_delay d) w'
  unfolding polls
  polls-again left d w w' h =
      ap
        (λ (p : Poll S × World S.env). elim p.0 as (λ x. Result Done × World S.env) [
          | over r ↦ (r, p.1)
          | again ↦ polls S condition left (next_delay d) p.1
        ])
        h

  polls-over :
      (left d : ℕ) (w w' : World S.env) (r : Result Done)
      → poll S condition d w ≡ (over r, w')
      → polls S condition (suc left) d w ≡ (r, w')
  unfolding polls
  polls-over left d w w' r h =
      ap
        (λ (p : Poll S × World S.env). elim p.0 as (λ x. Result Done × World S.env) [
          | over r ↦ (r, p.1)
          | again ↦ polls S condition left (next_delay d) p.1
        ])
        h

  -- The rounds so far leave the rest of the loop.
  polls-Polling :
      {n d : ℕ} {w w' : World S.env} (total left : ℕ)
      → Polling n d w w'
      → n + left ≡ total
      → polls S condition total min_delay w ≡ polls S condition left d w'
  polls-Polling total left (start w) h =
      ap (λ n. polls S condition n min_delay w) (omega (arith, h))
  polls-Polling total left (next {d = d} {w₁ = w₁} {w₂ = w₂} {w₃ = w₃} p live c q) h =
      polls-Polling total (suc left) p (omega (arith, h))
      ∙ polls-again left d w₁ w₃ (poll-next d w₁ w₂ w₃ live c q)

  -- The three ways in which a round goes.
  data Round (d : ℕ) (w : World S.env) : Type 0 where
    goes_on :
        (w₂ w₃ : World S.env)
        → S.env.done w.outside ≡ nil
        → condition w ≡ (ok false, w₂)
        → pause S d w₂ ≡ (nil, w₃)
        → Round d w
    succeeds : (w₂ : World S.env) → Success w w₂ → Round d w
    fails :
        (e : GoError) (w₂ : World S.env) → poll S condition d w ≡ (over (fail e), w₂) → Round d w

  poll-Round : (d : ℕ) (w : World S.env) → Round d w
  unfolding poll
  poll-Round d w = at_context (S.env.done w.outside) refl
    where
      at_pause :
          (w₂ : World S.env) (p : GoError × World S.env)
          → S.env.done w.outside ≡ nil
          → condition w ≡ (ok false, w₂)
          → pause S d w₂ ≡ p
          → Round d w
      at_pause w₂ (nil, w₃) live c q = goes_on w₂ w₃ live c q
      at_pause w₂ (error k n s m e, w₃) live c q =
          fails (cancelled_wait S (error k n s m e)) w₃ (rw live (rw c (ap (after_pause S) q)))
      at_pause w₂ (wrapped t e, w₃) live c q =
          fails (cancelled_wait S (wrapped t e)) w₃ (rw live (rw c (ap (after_pause S) q)))
      at_pause w₂ (other t, w₃) live c q =
          fails (cancelled_wait S (other t)) w₃ (rw live (rw c (ap (after_pause S) q)))

      at_condition :
          (p : Result Bool × World S.env) → S.env.done w.outside ≡ nil → condition w ≡ p → Round d w
      at_condition (ok true, w₂) live c = succeeds w₂ (live, c)
      at_condition (ok false, w₂) live c = at_pause w₂ (pause S d w₂) live c refl
      at_condition (fail e, w₂) live c =
          fails (wrapped (codes "error checking condition") e) w₂
            (rw live (ap (after_condition S d) c))

      at_context : (e : GoError) → S.env.done w.outside ≡ e → Round d w
      at_context nil h = at_condition (condition w) h refl
      at_context (error k n s m e) h = fails (cancelled_wait S (error k n s m e)) w (rw h)
      at_context (wrapped t e) h = fails (cancelled_wait S (wrapped t e)) w (rw h)
      at_context (other t) h = fails (cancelled_wait S (other t)) w (rw h)

  poll-true :
      (d : ℕ) (w w' : World S.env) → Success w w' → poll S condition d w ≡ (over (ok tt), w')
  unfolding poll
  poll-true d w w' (live, c) = rw live (ap (after_condition S d) c)

  polls-Success :
      (n left d : ℕ) (w w₁ w' : World S.env)
      → Polling n d w w₁
      → polls S condition left d w₁ ≡ (ok tt, w')
      → (m : ℕ) × (d' : ℕ) × (w₂ : World S.env) × (m < n + left) × Polling m d' w w₂ × Success w₂ w'
  unfolding polls
  polls-Success n zero d w w₁ w' p h = cc (ap (λ q. q.0) h)
  polls-Success n (suc left) d w w₁ w' p h = elim (poll-Round d w₁) [
    | goes_on w₂ w₃ live c q ↦
        let (m, d', w₄, below, p', s) =
          polls-Success (suc n) left (next_delay d) w w₃ w' (next p live c q)
            (sym (polls-again left d w₁ w₃ (poll-next d w₁ w₂ w₃ live c q)) ∙ h) in
        (m, d', w₄, omega (arith, below), p', s)
    | succeeds w₂ s ↦ (
      n,
      d,
      w₁,
      omega arith,
      p,
      (
        s.0,
        s.1
            ∙ ap (λ q. (ok true, q.1))
                (sym (polls-over left d w₁ w₂ (ok tt) (poll-true d w₁ w₂ s)) ∙ h),
      ),
    )
    | fails e w₂ q ↦ cc (ap (λ q. q.0) (sym (polls-over left d w₁ w₂ (fail e) q) ∙ h))
  ]

  -- The call gives nil exactly when, within thirty rounds, one found the context alive and the
  -- condition true, after rounds that found it false and waited.
  pub wait_for_condition_iff :
      (w w' : World S.env)
      → (wait_for_condition S condition w ≡ (ok tt, w')) ↔ (
          (n : ℕ) × (d : ℕ) × (w₁ : World S.env) × (n < max_polls)
          × Polling n d w w₁
          × Success w₁ w')
  unfolding wait_for_condition
  wait_for_condition_iff w w' = (
    λ h. polls-Success 0 max_polls min_delay w w w' (start w) h,
    λ (n, d, w₁, below, p, s).
        polls-Polling max_polls (suc (29 - n)) p (omega (arith, below))
        ∙ polls-over (29 - n) d w₁ w' (ok tt) (poll-true d w₁ w' s),
  )

  -- The wait after n rounds is 2, 4, 8, 16 and from then on 30 seconds.
  pub Polling-delay :
      {n d : ℕ} {w w' : World S.env} → Polling n d w w' → d ≡ min (2 ^ (n + 1)) 30 * second
  Polling-delay (start w) = refl
  Polling-delay (next {n = n} {d = d} p live c q) = next_doubles n d (Polling-delay p)
