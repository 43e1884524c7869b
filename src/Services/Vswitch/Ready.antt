-- ===== src/Services/Vswitch/Ready.antt =====
-- When a vSwitch counts as ready.
use hrobot_go.Base.{
  ◌≡◌, ◌≢◌, ◌↔◌, refl, sym, ◌∙◌, true, not, List, [], ◌∷◌, bytes_eq, bytes_eq_iff, All, if_lem, ℤ,
  arith,
}
use hrobot_go.Errors.{ok}
use hrobot_go.Errors.Laws.{ok-injective}
use hrobot_go.Services.Vswitch.{VswitchServer, all_ready, status_ready, status_failed}

abbrev pub IsReady : VswitchServer → Type 0
IsReady server = server.status ≡ status_ready

failed_ne_ready : status_failed ≢ status_ready
failed_ne_ready p = go ((bytes_eq_iff status_failed status_ready).1 p)
  where
    go : bytes_eq status_failed status_ready ≡ true → ⊥
    go h = unfold bytes_eq in ground (arith, h)

-- The loop ends in true exactly when every server is ready.
pub all_ready_iff :
    (id : ℤ) (servers : List VswitchServer) → (all_ready id servers ≡ ok true) ↔ All IsReady servers
unfolding all_ready
all_ready_iff id [] = (λ h. tt, λ h. refl)
all_ready_iff id (server ∷ servers) =
    if_lem (λ r. (r ≡ ok true) ↔ All IsReady (server ∷ servers))
      (bytes_eq server.status status_failed) _ _
      (λ t. (
        λ p. cc,
        λ h. absurd (failed_ne_ready (sym ((bytes_eq_iff server.status status_failed).0 t) ∙ h.0)),
      ))
      (λ f.
        if_lem (λ r. (r ≡ ok true) ↔ All IsReady (server ∷ servers))
          (not (bytes_eq server.status status_ready)) _ _
          (λ n.
            (λ p. cc (ok-injective p), λ h. cc ((bytes_eq_iff server.status status_ready).1 h.0)))
          (λ n. (
            λ p. (
              ground (arith, n, bytes_eq_iff server.status status_ready),
              (all_ready_iff id servers).0 p,
            ),
            λ h. (all_ready_iff id servers).1 h.1,
          )))
