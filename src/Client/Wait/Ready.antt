-- ===== src/Client/Wait/Ready.antt =====
-- Waiting for a condition that is a test of what a call reads.
use hrobot_go.Base.{◌≡◌, ◌<◌, ◌↔◌, ap, ◌∙◌, ℕ, Bool, true}
use hrobot_go.Errors.{nil, Result, ok, fail}
use hrobot_go.Client.World.{World}
use hrobot_go.Client.Methods.{Session, Call, on_value, and_then}
use hrobot_go.Client.Wait.{max_polls, wait_for_condition}
use hrobot_go.Client.Wait.Laws.{Polling, wait_for_condition_iff}

module _ (S : Session) {A : Type 0} (call : Call S A) where
  -- In a world where the context is alive, the call reads something that satisfies P.
  abbrev pub Satisfies : (A → Type 0) → World S.env → World S.env → Type 0
  Satisfies P w w' = (S.env.done w.outside ≡ nil) × ((a : A) × (call w ≡ (ok a, w')) × P a)

module _ (S : Session) {A : Type 0} (call : Call S A) (test : A → Result Bool) where
  -- The condition: the call, and the test of what it reads.
  abbrev pub tested : Call S Bool
  tested = and_then S call (λ a w. (test a, w))

  read_true :
      (p : Result A × World S.env) (w' : World S.env)
      → (on_value S (λ a w. (test a, w)) p ≡ (ok true, w'))
        ↔ ((a : A) × (p ≡ (ok a, w')) × (test a ≡ ok true))
  read_true (fail e, w) w' = (λ h. cc (ap (λ q. q.0) h), λ (a, h, t). cc (ap (λ q. q.0) h))
  read_true (ok a, w) w' = (
    λ h. (a, ap (λ q. (ok a, q.1)) h, ap (λ q. q.0) h),
    λ (b, h, t). ap (λ q. (on_value S (λ a w. (test a, w)) q)) h ∙ ap (λ r. (r, w')) t,
  )

  -- Waiting ends well exactly if a call within thirty rounds reads something that satisfies P, and
  -- the rounds before it did not and waited.
  pub wait-tested_iff :
      (P : A → Type 0)
      → ((a : A) → (test a ≡ ok true) ↔ P a)
      → (w w' : World S.env)
      → (wait_for_condition S tested w ≡ (ok tt, w')) ↔ (
          (n : ℕ) × (d : ℕ) × (w₁ : World S.env) × (n < max_polls)
          × Polling S tested n d w w₁
          × Satisfies S call P w₁ w')
  wait-tested_iff P iff w w' =
      let (to, from) = wait_for_condition_iff S tested w w' in
      (
        λ h.
            let (n, d, w₁, below, p, (live, c)) = to h in
            let (a, e, t) = (read_true (call w₁) w').0 c in
            (n, d, w₁, below, p, (live, (a, e, (iff a).0 t))),
        λ (n, d, w₁, below, p, (live, (a, e, q))).
            from (n, d, w₁, below, p, (live, (read_true (call w₁) w').1 (a, e, (iff a).1 q))),
      )
