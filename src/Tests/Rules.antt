-- ===== src/Tests/Rules.antt =====
-- Rulesets: the posted one has a rule for each version and one for both.
use hrobot_go.Base.{◌≡◌, ◌-◌, refl, inl, inr, true, [], ◌∷◌, Bytes, codes, count}
use hrobot_go.Firewall.Data.{FirewallRule, FirewallRules, rule_eq, equivalent, ipv4}
use hrobot_go.Firewall.Pending.{without}
use hrobot_go.Firewall.Pending.Laws.{without_lem, IsSublist}
use hrobot_go.Firewall.Injected.{server_injected_rules}
use hrobot_go.Firewall.Equivalence.{equivalent-normalised, normalised}
use hrobot_go.Firewall.Reconcile.{equivalent-without-server_injected_rules, prepended_to}

abbrev rule_of : Bytes → Bytes → FirewallRule
rule_of version port = record {
  name = codes "rule";
  ip_version = version;
  action = codes "accept";
  protocol = codes "tcp";
  source_ip = [];
  dest_ip = [];
  source_port = [];
  dest_port = port;
  tcp_flags = [];
}

abbrev posted : FirewallRules
posted = record {
  input = rule_of [] (codes "22") ∷ rule_of ipv4 (codes "80") ∷ [];
  output = rule_of [] [] ∷ [];
}

abbrev before : FirewallRules
before = record { input = rule_of ipv4 (codes "22") ∷ rule_of ipv4 (codes "25") ∷ []; output = [] }

equivalent-without-server_injected_rules_example :
    equivalent
      (without
        (prepended_to before posted)
        (server_injected_rules posted (prepended_to before posted)))
      posted
    ≡ true
equivalent-without-server_injected_rules_example =
    equivalent-without-server_injected_rules posted before
      ((inl refl, (inr (inl refl), tt)), (inl refl, tt)) ((inl refl, (inl refl, tt)), tt)

without_lem_example :
    (count (rule_of ipv4 (codes "25")) (without before before).input
      ≡ count (rule_of ipv4 (codes "25")) before.input
        - count (rule_of ipv4 (codes "25")) before.input)
    × (count (rule_of ipv4 (codes "25")) (without before before).output
        ≡ count (rule_of ipv4 (codes "25")) before.output
          - count (rule_of ipv4 (codes "25")) before.output)
    × IsSublist (without before before).input before.input
    × IsSublist (without before before).output before.output
without_lem_example = without_lem before before (rule_of ipv4 (codes "25"))

equivalent-normalised_example : equivalent (normalised posted) posted ≡ true
equivalent-normalised_example = equivalent-normalised posted
