-- ===== src/Firewall/Equivalence.antt =====
-- `Equivalent` decides that two rulesets filter alike, and sees through the expansion of rules
-- that name no IP version.
use hrobot_go.Base.{
  ◌⊎◌, ◌≡◌, ◌↔◌, refl, ◌∙◌, true, List, [], ◌∷◌, arith, Bytes, bytes_eq, if◌then◌else◌, list_eq→eq,
  list_eq_refl, Bool-cases, inl, inr,
}
use hrobot_go.Firewall.Data.{
  FirewallRule, FirewallRules, ipv4, ipv6, rule_eq, project_rules, rules_equivalent, equivalent,
}

-- Both rule lists apply the same rules in the same order to each IP version.
abbrev pub SameProjections : List FirewallRule → List FirewallRule → Type 0
SameProjections a b =
    (project_rules a ipv4 ≡ project_rules b ipv4) × (project_rules a ipv6 ≡ project_rules b ipv6)

pub rules_equivalent_iff :
    (a b : List FirewallRule) → (rules_equivalent a b ≡ true) ↔ SameProjections a b
unfolding rules_equivalent
rules_equivalent_iff a b = (
  λ h. (
    list_eq→eq (project_rules a ipv4) (project_rules b ipv4) (ground arith),
    list_eq→eq (project_rules a ipv6) (project_rules b ipv6) (ground arith),
  ),
  λ (p, q).
      rw (p, q)
        (ground (arith, list_eq_refl (project_rules b ipv4), list_eq_refl (project_rules b ipv6))),
)

pub equivalent_iff :
    (r other : FirewallRules)
    → (equivalent r other ≡ true)
      ↔ (SameProjections r.input other.input × SameProjections r.output other.output)
unfolding equivalent
equivalent_iff r other =
    ground
      (arith, rules_equivalent_iff r.input other.input, rules_equivalent_iff r.output other.output)

-- The normalised form that the service returns: a rule for both versions becomes two.
unfoldable pub expand_rule : FirewallRule → List FirewallRule → List FirewallRule
unfolding bytes_eq
expand_rule r rest =
    if bytes_eq r.ip_version []
    then record r { ip_version = ipv4 } ∷ record r { ip_version = ipv6 } ∷ rest
    else r ∷ rest

unfoldable pub expand : List FirewallRule → List FirewallRule
unfolding expand_rule
expand [] = []
expand (r ∷ rules) = expand_rule r (expand rules)

-- A rule in the only versions that the service documents, or in none.
abbrev pub HasVersion : FirewallRule → Type 0
HasVersion r = (r.ip_version ≡ []) ⊎ ((r.ip_version ≡ ipv4) ⊎ (r.ip_version ≡ ipv6))

project_ipv4-expand_rule :
    (r : FirewallRule) (rest : List FirewallRule)
    → project_rules (expand_rule r rest) ipv4 ≡ project_rules (r ∷ rest) ipv4
unfolding project_rules expand_rule
project_ipv4-expand_rule r rest = elim (Bool-cases (bytes_eq r.ip_version [])) [
  | inl both ↦ rw both
  | inr one ↦ rw one (ground arith)
]

project_ipv6-expand_rule :
    (r : FirewallRule) (rest : List FirewallRule)
    → project_rules (expand_rule r rest) ipv6 ≡ project_rules (r ∷ rest) ipv6
unfolding project_rules expand_rule
project_ipv6-expand_rule r rest = elim (Bool-cases (bytes_eq r.ip_version [])) [
  | inl both ↦ rw both
  | inr one ↦ rw one (ground arith)
]

project_rules-cons :
    (r : FirewallRule) (a b : List FirewallRule) (v : Bytes)
    → project_rules a v ≡ project_rules b v
    → project_rules (r ∷ a) v ≡ project_rules (r ∷ b) v
unfolding project_rules
project_rules-cons r a b v h = rw h

pub expand-SameProjections : (rules : List FirewallRule) → SameProjections (expand rules) rules
unfolding expand
expand-SameProjections [] = (refl, refl)
expand-SameProjections (r ∷ rules) = step (expand-SameProjections rules)
  where
    step : SameProjections (expand rules) rules → SameProjections (expand (r ∷ rules)) (r ∷ rules)
    step ih = (
      project_ipv4-expand_rule r (expand rules) ∙ project_rules-cons r _ _ ipv4 ih.0,
      project_ipv6-expand_rule r (expand rules) ∙ project_rules-cons r _ _ ipv6 ih.1,
    )

-- Both directions expanded.
abbrev pub normalised : FirewallRules → FirewallRules
normalised r = record { input = expand r.input; output = expand r.output }

-- A ruleset is equivalent to the form in which each rule without an IP version has come back as
-- an ipv4 rule followed by an ipv6 rule.
pub equivalent-normalised : (r : FirewallRules) → equivalent (normalised r) r ≡ true
equivalent-normalised r =
    (equivalent_iff (normalised r) r).1
      (expand-SameProjections r.input, expand-SameProjections r.output)
