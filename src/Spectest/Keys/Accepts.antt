-- ===== src/Spectest/Keys/Accepts.antt =====
-- The test server's check accepts the forms that the firewall service posts.
use hrobot_go.Base.{
  ℕ, ◌≡◌, refl, ap, ◌∙◌, inl, inr, Bool, true, false, List, [], ◌∷◌, Bytes, codes, All, All-append,
  Map, some, none, contains_byte, arith, Option, ◌+◌,
}
use hrobot_go.Firewall.Data.{FirewallRule, FirewallRules}
use hrobot_go.Firewall.Service.Filled.{filled-All, rule_fields, other_fields}
use hrobot_go.Firewall.Service.Fields.{indexed}
use hrobot_go.Firewall.Service.Asked.{ruleset_pairs, rules_pairs}
use hrobot_go.Base.{◌&&◌, value_or}
use hrobot_go.Url.Escape.{IsByte}
use hrobot_go.Url.Query.{parse_query}
use hrobot_go.Firewall.Service.{
  UpdateConfig, TemplateConfig, update_extras, template_extras, encode_rules,
}
use hrobot_go.Firewall.Service.Posts.{
  IsByteRules, optional_bool, optional_field, update_fields, template_fields, parse_query-update,
  parse_query-template,
}
use hrobot_go.Spectest.{values_of}
use hrobot_go.Spectest.Accepts.{keys-add_all-Allows, report_keys-nil}
use hrobot_go.Spectest.Keys.{
  is_field_byte, firewall_allowed_fields, firewall_rule_key_or_scalar, firewall_reports,
  validate_firewall_form,
}
use hrobot_go.Spectest.Keys.Matches.{IsField, IsDirection, firewall_rule_key_or_scalar-hier_key}

Accepted : Bytes × Bytes → Type 0
Accepted p = firewall_rule_key_or_scalar p.0 ≡ true

Named : Bytes × Bytes → Type 0
Named p = IsField p.0

abbrev passes : (ℕ → Bool) → Bytes → Bool
passes test [] = true
passes test (c ∷ s) = test c && passes test s

passes-All : (test : ℕ → Bool) (s : Bytes) → passes test s ≡ true → All (λ c. test c ≡ true) s
passes-All test [] h = tt
passes-All test (c ∷ s) h = (ground arith, passes-All test s (ground arith))

named :
    (c : ℕ) (k : Bytes)
    → firewall_allowed_fields (c ∷ k) ≡ true
    → passes is_field_byte (c ∷ k) ≡ true
    → IsField (c ∷ k)
named c k a b = record { allowed = a; bytes = passes-All is_field_byte (c ∷ k) b; filled = λ p. cc }

rule_fields-Named : (r : FirewallRule) → All Named (rule_fields r)
unfolding Named firewall_allowed_fields
rule_fields-Named r = (
  named _ _ refl refl,
  filled-All Named (other_fields r) (
    named _ _ refl refl,
    (
      named _ _ refl refl,
      (
        named _ _ refl refl,
        (
          named _ _ refl refl,
          (
            named _ _ refl refl,
            (named _ _ refl refl, (named _ _ refl refl, (named _ _ refl refl, tt))),
          ),
        ),
      ),
    ),
  ),
)

indexed-Accepted :
    (d : Bytes) (i : ℕ) (m : Map Bytes) → IsDirection d → All Named m → All Accepted (indexed d i m)
unfolding Named Accepted
indexed-Accepted d i [] hd h = tt
indexed-Accepted d i ((k, v) ∷ m) hd (hk, h) =
    (firewall_rule_key_or_scalar-hier_key d i k hd hk, indexed-Accepted d i m hd h)

ruleset_pairs-Accepted :
    (d : Bytes) (i : ℕ) (rs : List FirewallRule)
    → IsDirection d
    → All Accepted (ruleset_pairs d i rs)
ruleset_pairs-Accepted d i [] hd = tt
ruleset_pairs-Accepted d i (r ∷ rs) hd =
    All-append Accepted (indexed d i (rule_fields r)) _
      (indexed-Accepted d i (rule_fields r) hd (rule_fields-Named r))
      (ruleset_pairs-Accepted d (i + 1) rs hd)

rules_pairs-Accepted : (rules : FirewallRules) → All Accepted (rules_pairs rules)
rules_pairs-Accepted rules =
    All-append Accepted (ruleset_pairs (codes "input") 0 rules.input) _
      (ruleset_pairs-Accepted (codes "input") 0 rules.input (inl refl))
      (ruleset_pairs-Accepted (codes "output") 0 rules.output (inr refl))

-- A form passes the check if a server reads pairs with accepted keys from it.
validate_firewall_form-pairs :
    (body : Bytes) (pairs : List (Bytes × Bytes))
    → parse_query body ≡ record { pairs = pairs; failed = false }
    → All Accepted pairs
    → validate_firewall_form body ≡ []
unfolding validate_firewall_form firewall_reports values_of Accepted
validate_firewall_form-pairs body pairs reads h =
    ap firewall_reports reads
    ∙ report_keys-nil firewall_rule_key_or_scalar _
        (keys-add_all-Allows firewall_rule_key_or_scalar pairs [] h tt)

update_fields-Accepted : (config : UpdateConfig) → All Accepted (update_fields config)
unfolding Accepted firewall_rule_key_or_scalar contains_byte
update_fields-Accepted config =
    All-append Accepted (optional_bool (codes "filter_ipv6") config.filter_ipv6) _
      (bool (codes "filter_ipv6") config.filter_ipv6 refl)
      (All-append Accepted (optional_field (codes "status") config.status) _
        (field (codes "status") config.status refl)
        (bool (codes "whitelist_hos") config.whitelist_hos refl))
  where
    bool :
        (k : Bytes) (o : Option Bool)
        → firewall_rule_key_or_scalar k ≡ true
        → All Accepted (optional_bool k o)
    bool k none h = tt
    bool k (some b) h = (h, tt)

    field :
        (k : Bytes) (o : Option Bytes)
        → firewall_rule_key_or_scalar k ≡ true
        → All Accepted (optional_field k o)
    field k none h = tt
    field k (some v) h = (h, tt)

-- The body of an update, its settings and rules made of bytes, passes the check: every bracketed key
-- has a direction, an index and a field that is documented.
pub validate_firewall_form-update :
    (config : UpdateConfig)
    → IsByteRules config.rules
    → All IsByte (value_or [] config.status)
    → validate_firewall_form (encode_rules config.rules (update_extras config)) ≡ []
validate_firewall_form-update config hr hs =
    validate_firewall_form-pairs _ _ (parse_query-update config hr hs) (
      All-append Accepted (update_fields config) _ (update_fields-Accepted config)
        (rules_pairs-Accepted config.rules))

-- So does the body of a template.
pub validate_firewall_form-template :
    (template : TemplateConfig)
    → IsByteRules template.rules
    → All IsByte template.name
    → validate_firewall_form (encode_rules template.rules (template_extras template)) ≡ []
unfolding Accepted firewall_rule_key_or_scalar contains_byte
validate_firewall_form-template template ht hn =
    validate_firewall_form-pairs _ _ (parse_query-template template ht hn) (
      All-append Accepted (template_fields template) _ (refl, (refl, (refl, (refl, tt))))
        (rules_pairs-Accepted template.rules))
