-- ===== src/Firewall.antt =====
-- firewall.go, the rules: what a rule matches, when two rulesets filter alike, which rules the
-- service added to a posted ruleset, and how they are taken out again.
pub mod Data
pub mod Pending
pub mod Equivalence
pub mod Injected
pub mod Versioned
pub mod Reconcile
pub mod Service
