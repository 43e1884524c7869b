-- ===== src/Firewall/Data.antt =====
-- The rule types of firewall.go, and the comparison of rulesets by IP version.
use hrobot_go.Base.{
  ℕ, ◌≡◌, ◌↔◌, Bool, true, ◌&&◌, ◌||◌, List, [], ◌∷◌, arith, Bytes, codes, Eq, bytes_eq,
  bytes_eq_iff, if◌then◌else◌, list_eq,
}

abbrev pub ipv4 : Bytes
ipv4 = codes "ipv4"

abbrev pub ipv6 : Bytes
ipv6 = codes "ipv6"

-- `MaxFirewallInputRules`.
abbrev pub max_firewall_input_rules : ℕ
max_firewall_input_rules = 10

pub record FirewallRule : Type 0 where
  pub name : Bytes
  pub ip_version : Bytes
  pub action : Bytes
  pub protocol : Bytes
  pub source_ip : Bytes
  pub dest_ip : Bytes
  pub source_port : Bytes
  pub dest_port : Bytes
  pub tcp_flags : Bytes

pub record FirewallRules : Type 0 where
  pub input : List FirewallRule
  pub output : List FirewallRule

-- `==` on the struct.
unfoldable pub same_rule : FirewallRule → FirewallRule → Bool
unfolding bytes_eq
same_rule a b =
    bytes_eq a.name b.name
    && bytes_eq a.ip_version b.ip_version
    && bytes_eq a.action b.action
    && bytes_eq a.protocol b.protocol
    && bytes_eq a.source_ip b.source_ip
    && bytes_eq a.dest_ip b.dest_ip
    && bytes_eq a.source_port b.source_port
    && bytes_eq a.dest_port b.dest_port
    && bytes_eq a.tcp_flags b.tcp_flags

pub same_rule_iff : (a b : FirewallRule) → (same_rule a b ≡ true) ↔ (a ≡ b)
unfolding same_rule
same_rule_iff a b = ground (
  arith,
  bytes_eq_iff a.name b.name,
  bytes_eq_iff a.ip_version b.ip_version,
  bytes_eq_iff a.action b.action,
  bytes_eq_iff a.protocol b.protocol,
  bytes_eq_iff a.source_ip b.source_ip,
  bytes_eq_iff a.dest_ip b.dest_ip,
  bytes_eq_iff a.source_port b.source_port,
  bytes_eq_iff a.dest_port b.dest_port,
  bytes_eq_iff a.tcp_flags b.tcp_flags,
)

instance unfoldable pub rule_eq : Eq FirewallRule
unfolding same_rule
rule_eq = record { beq = same_rule; beq_iff = same_rule_iff }

unfoldable pub applies_to : FirewallRule → Bytes → Bool
unfolding bytes_eq
applies_to r v = bytes_eq r.ip_version [] || bytes_eq r.ip_version v

-- The rule with `IPVersion` cleared.
abbrev pub cleared : FirewallRule → FirewallRule
cleared r = record r { ip_version = [] }

unfoldable pub project_rules : List FirewallRule → Bytes → List FirewallRule
unfolding applies_to
project_rules [] v = []
project_rules (r ∷ rules) v =
    let rest = project_rules rules v in if applies_to r v then cleared r ∷ rest else rest

-- The length test and the comparison by index, for each of the two versions.
unfoldable pub rules_equivalent : List FirewallRule → List FirewallRule → Bool
unfolding project_rules list_eq rule_eq
rules_equivalent a b =
    list_eq (project_rules a ipv4) (project_rules b ipv4)
    && list_eq (project_rules a ipv6) (project_rules b ipv6)

unfoldable pub equivalent : FirewallRules → FirewallRules → Bool
unfolding rules_equivalent
equivalent r other = rules_equivalent r.input other.input && rules_equivalent r.output other.output
