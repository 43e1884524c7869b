-- ===== src/Services/Settled.antt =====
-- When the two loops that wait for the service end well.
use hrobot_go.Base.{
  ◌≡◌, ◌≢◌, ◌<◌, ◌↔◌, refl, sym, ◌∙◌, ℕ, ℤ, Bool, true, not, bytes_eq, bytes_eq_iff, Bool-cases,
  inl, inr, All,
}
use hrobot_go.Errors.{ok}
use hrobot_go.Client.World.{World}
use hrobot_go.Client.Json.{Decoder}
use hrobot_go.Client.Methods.{Session, Call}
use hrobot_go.Client.Wait.{max_polls}
use hrobot_go.Client.Wait.Laws.{Polling}
use hrobot_go.Client.Wait.Ready.{Satisfies, wait-tested_iff}
use hrobot_go.Firewall.Service
use hrobot_go.Firewall.Service.{FirewallConfig, firewall_status_in_process}
use hrobot_go.Services.Vswitch
use hrobot_go.Services.Vswitch.{Vswitch, all_ready}
use hrobot_go.Services.Vswitch.Ready.{IsReady, all_ready_iff}

abbrev pub IsSettled : FirewallConfig → Type 0
IsSettled config = config.status ≢ firewall_status_in_process

status-IsSettled :
    (config : FirewallConfig)
    → (ok (not (bytes_eq config.status firewall_status_in_process)) ≡ ok true) ↔ IsSettled config
status-IsSettled config = elim (Bool-cases (bytes_eq config.status firewall_status_in_process)) [
  | inl t ↦ (
    λ h. cc (rw t at h),
    λ n. absurd (n ((bytes_eq_iff config.status firewall_status_in_process).0 t)),
  )
  | inr f ↦ (
    λ h p. cc (sym f ∙ (bytes_eq_iff config.status firewall_status_in_process).1 p),
    λ n. rw f refl,
  )
]

module _ (S : Session) (D : Decoder FirewallConfig) (DV : Decoder Vswitch) (id : ℤ) where
  -- Within thirty rounds a call reads something that satisfies P, after rounds whose test was false
  -- and that waited: from the first world to the last.
  abbrev pub Within :
      {A : Type 0} (call : Call S A) (condition : Call S Bool) (P : A → Type 0)
      → World S.env
      → World S.env
      → Type 0
  Within call condition P w w' =
      (n : ℕ) × (d : ℕ) × (w₁ : World S.env) × (n < max_polls)
      × Polling S condition n d w w₁
      × Satisfies S call P w₁ w'

  -- WaitForFirewallReady gives nil exactly if a Get within its thirty rounds reads a status other
  -- than "in process", and WaitForVSwitchReady exactly if one reads a vSwitch whose servers are all
  -- ready, with the context alive there, and with rounds before it that read something else and
  -- waited.
  pub wait-IsSettled_iff :
      (w w' : World S.env)
      → ((Service.wait_for_firewall_ready S D id w ≡ (ok tt, w'))
          ↔ Within (Service.get S D id) (Service.is_settled S D id) IsSettled w w')
        × ((Vswitch.wait_for_vswitch_ready S DV id w ≡ (ok tt, w'))
            ↔ Within
                (Vswitch.get S DV id)
                (Vswitch.is_ready S DV id)
                (λ v. All IsReady v.servers)
                w
                w')
  unfolding Service.wait_for_firewall_ready Service.is_settled Vswitch.wait_for_vswitch_ready
      Vswitch.is_ready
  wait-IsSettled_iff w w' = (
    wait-tested_iff S (Service.get S D id)
        (λ config. ok (not (bytes_eq config.status firewall_status_in_process))) IsSettled
        status-IsSettled w w',
    wait-tested_iff S (Vswitch.get S DV id) (λ v. all_ready id v.servers)
        (λ v. All IsReady v.servers) (λ v. all_ready_iff id v.servers) w w',
  )
