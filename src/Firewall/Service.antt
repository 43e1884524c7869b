-- ===== src/Firewall/Service.antt =====
-- firewall.go: `FirewallService`: the limit on the rules, how a ruleset is posted, templates.
pub mod Laws
pub mod Filled
pub mod Fields
pub mod Asked
pub mod Posts
pub mod Status
use hrobot_go.Base.{
  ℕ, suc, ◌≡◌, Bool, true, false, not, List, [], ◌∷◌, ◌++◌, Bytes, codes, format_bool, Option, none,
  some, ℤ, pos, itoa, itoa_int, ltb, bytes_eq, if◌then◌else◌, length, Map, insert,
}
use hrobot_go.Url.Escape.{path_escape}
use hrobot_go.Url.Values.{Values, set}
use hrobot_go.UrlEncode.{
  FirewallRuleEncoder, new_firewall_rule_encoder, add_input_rule, add_output_rule, encode_to_string,
  Rule,
}
use hrobot_go.Errors.{
  GoError, nil, Result, ok, fail, new_validation_error, err_firewall_rule_limit_exceeded,
}
use hrobot_go.Firewall.Data.{FirewallRule, FirewallRules}
use hrobot_go.Client.Json.{Decoder}
use hrobot_go.Client.Wait.{wait_for_condition}
use hrobot_go.Client.Methods
use hrobot_go.Client.Methods.{Session, Call, Done, and_then, return, reject}

abbrev pub firewall_status_active : Bytes
firewall_status_active = codes "active"

abbrev pub firewall_status_disabled : Bytes
firewall_status_disabled = codes "disabled"

abbrev pub firewall_status_in_process : Bytes
firewall_status_in_process = codes "in process"

pub record FirewallConfig : Type 0 where
  pub server_ip : Bytes
  pub server_number : ℤ
  pub status : Bytes
  pub filter_ipv6 : Bool
  pub whitelist_hos : Bool
  pub port : Bytes
  pub rules : FirewallRules

-- `UpdateConfig`: none for a nil pointer.
pub record UpdateConfig : Type 0 where
  pub status : Option Bytes
  pub whitelist_hos : Option Bool
  pub filter_ipv6 : Option Bool
  pub rules : FirewallRules

pub record FirewallTemplate : Type 0 where
  pub id : ℤ
  pub name : Bytes
  pub filter_ipv6 : Bool
  pub whitelist_hos : Bool
  pub is_default : Bool
  pub rules : FirewallRules

pub record TemplateConfig : Type 0 where
  pub name : Bytes
  pub filter_ipv6 : Bool
  pub whitelist_hos : Bool
  pub is_default : Bool
  pub rules : FirewallRules

unfoldable pub validate_input_rule_count : FirewallRules → ℕ → GoError
validate_input_rule_count rules max_input =
    if ltb max_input (length rules.input)
    then new_validation_error err_firewall_rule_limit_exceeded
        (codes "inbound firewall rule count "
          ++ (itoa (length rules.input) ++ (codes " exceeds the maximum of " ++ itoa max_input)))
        (pos 409)
    else nil

-- `if v != "" { data[k] = v }`.
unfoldable pub put_filled : Bytes → Bytes → Map Bytes → Map Bytes
put_filled k [] data' = data'
put_filled k (c ∷ v) data' = insert k (c ∷ v) data'

unfoldable pub encode_rule : FirewallRule → Rule
unfolding put_filled insert
encode_rule rule = put_filled (codes "tcp_flags") rule.tcp_flags (
    put_filled (codes "dst_port") rule.dest_port (
      put_filled (codes "src_port") rule.source_port (
        put_filled (codes "dst_ip") rule.dest_ip (
          put_filled (codes "src_ip") rule.source_ip (
            put_filled (codes "protocol") rule.protocol (
              insert (codes "action") rule.action (
                put_filled (codes "ip_version") rule.ip_version
                  (put_filled (codes "name") rule.name []))))))))

unfoldable pub add_inputs : List FirewallRule → FirewallRuleEncoder → FirewallRuleEncoder
unfolding encode_rule add_input_rule
add_inputs [] encoder = encoder
add_inputs (rule ∷ rules) encoder = add_inputs rules (add_input_rule (encode_rule rule) encoder)

unfoldable pub add_outputs : List FirewallRule → FirewallRuleEncoder → FirewallRuleEncoder
unfolding encode_rule add_output_rule
add_outputs [] encoder = encoder
add_outputs (rule ∷ rules) encoder = add_outputs rules (add_output_rule (encode_rule rule) encoder)

unfoldable pub encode_rules : FirewallRules → Map Bytes → Bytes
unfolding add_inputs add_outputs encode_to_string
encode_rules rules extra =
    encode_to_string extra
      (add_outputs rules.output (add_inputs rules.input new_firewall_rule_encoder))

abbrev put_bytes : Bytes → Option Bytes → Map Bytes → Map Bytes
put_bytes k none m = m
put_bytes k (some v) m = insert k v m

abbrev put_bool : Bytes → Option Bool → Map Bytes → Map Bytes
put_bool k none m = m
put_bool k (some b) m = insert k (format_bool b) m

-- The extra fields of an update.
unfoldable pub update_extras : UpdateConfig → Map Bytes
unfolding insert
update_extras config = put_bool (codes "filter_ipv6") config.filter_ipv6 (
    put_bool (codes "whitelist_hos") config.whitelist_hos
      (put_bytes (codes "status") config.status []))

unfoldable pub template_extras : TemplateConfig → Map Bytes
template_extras config =
    (codes "name", config.name)
    ∷ (codes "filter_ipv6", format_bool config.filter_ipv6)
    ∷ (codes "whitelist_hos", format_bool config.whitelist_hos)
    ∷ (codes "is_default", format_bool config.is_default)
    ∷ []

abbrev pub firewall_path : ℤ → Bytes
firewall_path server_id = codes "/firewall/" ++ itoa_int server_id

abbrev pub template_path : Bytes → Bytes
template_path template_id = codes "/firewall/template/" ++ path_escape template_id

-- `rules` as a pointer: the ruleset that is applied.
abbrev pub applied_rules : FirewallConfig → Option FirewallRules → FirewallRules
applied_rules current none = current.rules
applied_rules current (some rules) = rules

-- Passes on an error that is not nil.
abbrev pub guarded {ℓ} : (S : Session) {A : Type ℓ} → GoError → Call S A → Call S A
guarded S nil call = call
guarded S e call = reject S e

module _ (S : Session) (D : Decoder FirewallConfig) where
  unfoldable pub validate_rules : FirewallRules → GoError
  unfolding validate_input_rule_count
  validate_rules rules = validate_input_rule_count rules S.client.max_firewall_input

  unfoldable pub get : ℤ → Call S FirewallConfig
  get server_id = Methods.get S D (firewall_path server_id)

  unfoldable pub update : ℤ → UpdateConfig → Call S FirewallConfig
  unfolding validate_rules encode_rules update_extras
  update server_id config = guarded S (validate_rules config.rules) (
      Methods.post_raw S D (firewall_path server_id)
        (encode_rules config.rules (update_extras config)))

  -- The configuration that `setStatus` posts.
  abbrev pub status_config : Bytes → Option FirewallRules → FirewallConfig → UpdateConfig
  status_config status rules current = record {
    status = some status;
    whitelist_hos = some current.whitelist_hos;
    filter_ipv6 = some current.filter_ipv6;
    rules = applied_rules current rules;
  }

  unfoldable pub set_status : ℤ → Bytes → Option FirewallRules → Call S FirewallConfig
  unfolding get update
  set_status server_id status rules =
      and_then S (get server_id) (λ current. update server_id (status_config status rules current))

  unfoldable pub activate : ℤ → Call S FirewallConfig
  activate server_id = set_status server_id firewall_status_active none

  unfoldable pub activate_with_rules : ℤ → FirewallRules → Call S FirewallConfig
  activate_with_rules server_id rules = set_status server_id firewall_status_active (some rules)

  unfoldable pub disable : ℤ → Call S FirewallConfig
  disable server_id = set_status server_id firewall_status_disabled none

  unfoldable pub disable_with_rules : ℤ → FirewallRules → Call S FirewallConfig
  disable_with_rules server_id rules = set_status server_id firewall_status_disabled (some rules)

  unfoldable pub apply_template : ℤ → Bytes → Call S FirewallConfig
  apply_template server_id template_id =
      Methods.post S D (firewall_path server_id) (some (set (codes "template_id") template_id []))

  unfoldable pub is_settled : ℤ → Call S Bool
  unfolding get
  is_settled server_id =
      and_then S (get server_id)
        (λ config. return S (not (bytes_eq config.status firewall_status_in_process)))

  unfoldable pub wait_for_firewall_ready : ℤ → Call S Done
  unfolding is_settled
  wait_for_firewall_ready server_id = wait_for_condition S (is_settled server_id)

module _ (S : Session) where
  unfoldable pub delete : ℤ → Call S Done
  delete server_id = Methods.delete S (firewall_path server_id)

  unfoldable pub list_templates : Decoder (List FirewallTemplate) → Call S (List FirewallTemplate)
  list_templates D = Methods.get S D (codes "/firewall/template")

  unfoldable pub get_template : Decoder FirewallTemplate → Bytes → Call S FirewallTemplate
  get_template D template_id = Methods.get S D (template_path template_id)

  unfoldable pub create_template :
      Decoder FirewallTemplate → TemplateConfig → Call S FirewallTemplate
  unfolding validate_input_rule_count encode_rules template_extras
  create_template D config =
      guarded S (validate_input_rule_count config.rules S.client.max_firewall_input) (
        Methods.post_raw S D (codes "/firewall/template")
          (encode_rules config.rules (template_extras config)))

  unfoldable pub update_template :
      Decoder FirewallTemplate → Bytes → TemplateConfig → Call S FirewallTemplate
  unfolding validate_input_rule_count encode_rules template_extras
  update_template D template_id config =
      guarded S (validate_input_rule_count config.rules S.client.max_firewall_input) (
        Methods.post_raw S D (template_path template_id)
          (encode_rules config.rules (template_extras config)))

  unfoldable pub delete_template : Bytes → Call S Done
  delete_template template_id = Methods.delete S (template_path template_id)
