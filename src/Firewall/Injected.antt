-- ===== src/Firewall/Injected.antt =====
-- `ServerInjectedRules`: the rules that the service added to a posted ruleset.
pub mod Passes
use hrobot_go.Base.{ℕ, ◌+◌, Bytes, Bool, true, false, ◌&&◌, List, [], ◌∷◌, ltb, ◌==◌, if◌then◌else◌}
use hrobot_go.Firewall.Data.{
  FirewallRule, FirewallRules, ipv4, ipv6, applies_to, cleared, project_rules,
}
use hrobot_go.Firewall.Pending.{Counts, no_counts, decrement, tally}

-- The two `map[int]int`, by the index of a returned rule: in how many versions the rule applies,
-- and in how many of those it went unmatched.
pub record Tallies : Type 0 where
  pub applies : ℕ → ℕ
  pub unaccounted : ℕ → ℕ

abbrev pub no_tallies : Tallies
no_tallies = record { applies = λ i. 0; unaccounted = λ i. 0 }

-- `m[i]++`.
unfoldable pub bump : ℕ → (ℕ → ℕ) → ℕ → ℕ
bump i m j = if i == j then m j + 1 else m j

-- The body of the loop over `returned`, for one IP version.
unfoldable pub mark : Bool → Bool → ℕ → Tallies → Tallies
unfolding bump
mark false matched i t = t
mark true true i t = record t { applies = bump i t.applies }
mark true false i t = record t { applies = bump i t.applies; unaccounted = bump i t.unaccounted }

-- What is available after a returned rule was looked at: a match consumes one.
unfoldable pub consume : Bytes → FirewallRule → Counts → Counts
unfolding applies_to decrement
consume v r available =
    if applies_to r v && ltb 0 (available (cleared r))
    then decrement (cleared r) available
    else available

-- The loop over `returned` for one IP version, from index `i` on.
unfoldable pub version_pass : Bytes → ℕ → List FirewallRule → Counts → Tallies → Tallies
unfolding mark consume applies_to
version_pass v i [] available t = t
version_pass v i (r ∷ returned) available t =
    version_pass v (i + 1) returned (consume v r available)
      (mark (applies_to r v) (ltb 0 (available (cleared r))) i t)

-- The last loop, which collects the rules that no version they apply to accounts for.
unfoldable pub collect : Tallies → ℕ → List FirewallRule → List FirewallRule
collect t i [] = []
collect t i (r ∷ returned) =
    let rest = collect t (i + 1) returned in
    if ltb 0 (t.applies i) && t.unaccounted i == t.applies i then r ∷ rest else rest

unfoldable pub injected_rules : List FirewallRule → List FirewallRule → List FirewallRule
unfolding version_pass collect tally project_rules
injected_rules posted returned =
    let after_ipv4 =
      version_pass ipv4 0 returned (tally (project_rules posted ipv4) no_counts) no_tallies in
    let after_ipv6 =
      version_pass ipv6 0 returned (tally (project_rules posted ipv6) no_counts) after_ipv4 in
    collect after_ipv6 0 returned

unfoldable pub server_injected_rules : FirewallRules → FirewallRules → FirewallRules
unfolding injected_rules
server_injected_rules posted returned = record {
  input = injected_rules posted.input returned.input;
  output = injected_rules posted.output returned.output;
}
