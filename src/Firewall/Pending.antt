-- ===== src/Firewall/Pending.antt =====
-- `map[FirewallRule]int` counters, and `Without`.
pub mod Laws
use hrobot_go.Base.{ℕ, ◌+◌, ◌-◌, Bool, List, [], ◌∷◌, Bytes, ltb, if◌then◌else◌}
use hrobot_go.Firewall.Data.{FirewallRule, FirewallRules, rule_eq, same_rule}

-- A key that is missing has the count 0.
abbrev pub Counts : Type 0
Counts = FirewallRule → ℕ

abbrev pub no_counts : Counts
no_counts r = 0

-- `m[r]++` and `m[r]--`; the code decrements positive counts only.
unfoldable pub increment : FirewallRule → Counts → Counts
unfolding same_rule
increment r m x = if same_rule r x then m x + 1 else m x

unfoldable pub decrement : FirewallRule → Counts → Counts
unfolding same_rule
decrement r m x = if same_rule r x then m x - 1 else m x

-- `for _, rule := range rules { m[rule]++ }`.
unfoldable pub tally : List FirewallRule → Counts → Counts
unfolding increment
tally [] m = m
tally (r ∷ rules) m = tally rules (increment r m)

-- The second loop of `removeRules`.
unfoldable pub drop_pending : Counts → List FirewallRule → List FirewallRule
unfolding decrement
drop_pending pending [] = []
drop_pending pending (r ∷ rules) =
    let skipped = drop_pending (decrement r pending) rules in
    let kept = r ∷ drop_pending pending rules in if ltb 0 (pending r) then skipped else kept

unfoldable pub remove_rules : List FirewallRule → List FirewallRule → List FirewallRule
unfolding tally drop_pending
remove_rules rules [] = rules
remove_rules rules (r ∷ remove) = drop_pending (tally (r ∷ remove) no_counts) rules

unfoldable pub without : FirewallRules → FirewallRules → FirewallRules
unfolding remove_rules
without r remove = record {
  input = remove_rules r.input remove.input;
  output = remove_rules r.output remove.output;
}
