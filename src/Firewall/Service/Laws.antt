-- ===== src/Firewall/Service/Laws.antt =====
-- What the firewall operations refuse before anything is sent.
use hrobot_go.Base.{◌<◌, ◌≡◌, refl, true, Bytes, ℤ, length, ltb, if_lem, arith}
use hrobot_go.Errors.{GoError, fail, new_validation_error, is_firewall_rule_limit_exceeded_error}
use hrobot_go.Firewall.Data.{FirewallRules}
use hrobot_go.Firewall.Service.{
  FirewallConfig, FirewallTemplate, UpdateConfig, TemplateConfig, validate_input_rule_count,
  validate_rules, update, create_template, update_template, guarded,
}
use hrobot_go.Client.World.{World}
use hrobot_go.Client.Json.{Decoder}
use hrobot_go.Client.Methods.{Session, Call}

module _ (S : Session) where
  -- The call fails with the error of the limit, and leaves the world as it was.
  abbrev pub IsLimited : {A : Type 0} → Call S A → World S.env → Type 0
  IsLimited call w =
      (e : GoError) × (call w ≡ (fail e, w)) × (is_firewall_rule_limit_exceeded_error e ≡ true)

  guarded-IsLimited :
      {A : Type 0} (rules : FirewallRules) (call : Call S A) (w : World S.env)
      → S.client.max_firewall_input < length rules.input
      → IsLimited (guarded S (validate_input_rule_count rules S.client.max_firewall_input) call) w
  unfolding validate_input_rule_count new_validation_error is_firewall_rule_limit_exceeded_error
  guarded-IsLimited {A} rules call w h =
      if_lem (λ e. IsLimited (guarded S e call) w)
        (ltb S.client.max_firewall_input (length rules.input)) _ _ (λ t. (_, refl, refl))
        (λ f. absurd (ground (arith, f)))

  -- More inbound rules than the client's limit are refused by the three operations that post a
  -- ruleset: with the error of the limit, and before anything is sent.
  pub rule_limit-refused :
      (D : Decoder FirewallConfig) (DT : Decoder FirewallTemplate) (server_id : ℤ)
      (template_id : Bytes) (config : UpdateConfig) (template : TemplateConfig) (w : World S.env)
      → S.client.max_firewall_input < length config.rules.input
      → S.client.max_firewall_input < length template.rules.input
      → IsLimited (update S D server_id config) w
        × IsLimited (create_template S DT template) w
        × IsLimited (update_template S DT template_id template) w
  unfolding update validate_rules create_template update_template
  rule_limit-refused D DT server_id template_id config template w h k = (
    guarded-IsLimited config.rules _ w h,
    guarded-IsLimited template.rules _ w k,
    guarded-IsLimited template.rules _ w k,
  )
