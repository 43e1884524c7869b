-- ===== src/Firewall/Injected/Passes.antt =====
-- The two passes by index, as one pass that decides each rule when it comes to it.
use hrobot_go.Base.{
  ℕ, zero, suc, ◌+◌, ◌<◌, ◌≡◌, refl, ap, ◌∙◌, Bytes, Bool, true, false, not, ◌&&◌, ◌||◌, List, [],
  ◌∷◌, arith, ltb, ◌==◌, if◌then◌else◌,
}
use hrobot_go.Firewall.Data.{FirewallRule, ipv4, ipv6, applies_to, cleared, project_rules}
use hrobot_go.Firewall.Pending.{Counts, no_counts, tally}
use hrobot_go.Firewall.Injected.{
  Tallies, no_tallies, bump, mark, consume, version_pass, collect, injected_rules,
}

abbrev bit : Bool → ℕ
bit true = 1
bit false = 0

-- Whether the rule applies to `v` and no posted rule is left for it.
abbrev unmatched : Bytes → FirewallRule → Counts → Bool
unmatched v r available = applies_to r v && not (ltb 0 (available (cleared r)))

-- What one pass adds at the k-th rule.
abbrev applies_at : Bytes → List FirewallRule → ℕ → ℕ
applies_at v [] k = 0
applies_at v (r ∷ rules) zero = bit (applies_to r v)
applies_at v (r ∷ rules) (suc k) = applies_at v rules k

abbrev unmatched_at : Bytes → Counts → List FirewallRule → ℕ → ℕ
unmatched_at v available [] k = 0
unmatched_at v available (r ∷ rules) zero = bit (unmatched v r available)
unmatched_at v available (r ∷ rules) (suc k) = unmatched_at v (consume v r available) rules k

mark-applies :
    (b c : Bool) (i : ℕ) (t : Tallies) (j : ℕ)
    → (mark b c i t).applies j ≡ t.applies j + (if i == j then bit b else 0)
unfolding mark bump
mark-applies false c i t j = ground arith
mark-applies true true i t j = ground arith
mark-applies true false i t j = ground arith

mark-unaccounted :
    (b c : Bool) (i : ℕ) (t : Tallies) (j : ℕ)
    → (mark b c i t).unaccounted j ≡ t.unaccounted j + (if i == j then bit (b && not c) else 0)
unfolding mark bump
mark-unaccounted false c i t j = ground arith
mark-unaccounted true true i t j = ground arith
mark-unaccounted true false i t j = ground arith

-- A pass leaves the indices before its own alone.
pass_below :
    (v : Bytes) (i : ℕ) (rules : List FirewallRule) (a : Counts) (t : Tallies) (j : ℕ)
    → j < i
    → ((version_pass v i rules a t).applies j ≡ t.applies j)
      × ((version_pass v i rules a t).unaccounted j ≡ t.unaccounted j)
unfolding version_pass
pass_below v i [] a t j h = (refl, refl)
pass_below v i (r ∷ rules) a t j h =
    let b = applies_to r v in
    let c = ltb 0 (a (cleared r)) in
    ground (
      arith,
      pass_below v (i + 1) rules (consume v r a) (mark b c i t) j,
      mark-applies b c i t j,
      mark-unaccounted b c i t j,
    )

abbrev At : Bytes → ℕ → List FirewallRule → Counts → Tallies → ℕ → Type 0
At v i rules a t k =
    ((version_pass v i rules a t).applies (i + k) ≡ t.applies (i + k) + applies_at v rules k)
    × ((version_pass v i rules a t).unaccounted (i + k)
        ≡ t.unaccounted (i + k) + unmatched_at v a rules k)

-- What a pass adds, rule by rule.
pass-At :
    (v : Bytes) (i : ℕ) (rules : List FirewallRule) (a : Counts) (t : Tallies) (k : ℕ)
    → At v i rules a t k
unfolding version_pass
pass-At v i [] a t k = (omega arith, omega arith)
pass-At v i (r ∷ rules) a t zero =
    let b = applies_to r v in
    let c = ltb 0 (a (cleared r)) in
    let here : i + 0 ≡ i = omega arith in
    rw here (
      ground (
        arith,
        pass_below v (i + 1) rules (consume v r a) (mark b c i t) i,
        mark-applies b c i t i,
        mark-unaccounted b c i t i,
      ))
pass-At v i (r ∷ rules) a t (suc k) =
    let b = applies_to r v in
    let c = ltb 0 (a (cleared r)) in
    let next : i + suc k ≡ i + 1 + k = omega arith in
    let ih = pass-At v (i + 1) rules (consume v r a) (mark b c i t) k in
    rw next
      (ground (arith, ih, mark-applies b c i t (i + 1 + k), mark-unaccounted b c i t (i + 1 + k)))

-- Both passes at once: `a` and `b` are what is left of the posted rules for each version.
unfoldable pub surplus : Counts → Counts → List FirewallRule → List FirewallRule
surplus a b [] = []
surplus a b (r ∷ rules) =
    let rest = surplus (consume ipv4 r a) (consume ipv6 r b) rules in
    if (applies_to r ipv4 || applies_to r ipv6)
      && (not (applies_to r ipv4) || unmatched ipv4 r a)
      && (not (applies_to r ipv6) || unmatched ipv6 r b)
    then r ∷ rest
    else rest

collect-surplus :
    (t : Tallies) (i : ℕ) (a b : Counts) (rules : List FirewallRule)
    → ((k : ℕ) → t.applies (i + k) ≡ applies_at ipv4 rules k + applies_at ipv6 rules k)
    → ((k : ℕ) → t.unaccounted (i + k) ≡ unmatched_at ipv4 a rules k + unmatched_at ipv6 b rules k)
    → collect t i rules ≡ surplus a b rules
unfolding collect surplus
collect-surplus t i a b [] h u = refl
collect-surplus t i a b (r ∷ rules) h u =
    let here : i + 0 ≡ i = omega arith in
    let h' : t.applies i ≡ bit (applies_to r ipv4) + bit (applies_to r ipv6) = rw here at (h 0) in
    let u' : t.unaccounted i ≡ bit (unmatched ipv4 r a) + bit (unmatched ipv6 r b) =
      rw here at (u 0) in
    rw
      (collect-surplus t (i + 1) (consume ipv4 r a) (consume ipv6 r b) rules (λ k. shift h k)
        (λ k. shift' u k))
      (ground (arith, h', u'))
  where
    next : (k : ℕ) → i + 1 + k ≡ i + suc k
    next k = omega arith

    shift :
        ((k : ℕ)
          → t.applies (i + k) ≡ applies_at ipv4 (r ∷ rules) k + applies_at ipv6 (r ∷ rules) k)
        → (k : ℕ) → t.applies (i + 1 + k) ≡ applies_at ipv4 rules k + applies_at ipv6 rules k
    shift h k = ap t.applies (next k) ∙ h (suc k)

    shift' :
        ((k : ℕ)
          → t.unaccounted (i + k)
            ≡ unmatched_at ipv4 a (r ∷ rules) k + unmatched_at ipv6 b (r ∷ rules) k)
        → (k : ℕ)
        → t.unaccounted (i + 1 + k)
          ≡ unmatched_at ipv4 (consume ipv4 r a) rules k
            + unmatched_at ipv6 (consume ipv6 r b) rules k
    shift' u k = ap t.unaccounted (next k) ∙ u (suc k)

pub injected_rules-surplus :
    (posted returned : List FirewallRule)
    → injected_rules posted returned
      ≡ surplus
          (tally (project_rules posted ipv4) no_counts)
          (tally (project_rules posted ipv6) no_counts)
          returned
unfolding injected_rules
injected_rules-surplus posted returned =
    collect-surplus (version_pass ipv6 0 returned b t4) 0 a b returned applies unaccounted
  where
    a : Counts
    a = tally (project_rules posted ipv4) no_counts

    b : Counts
    b = tally (project_rules posted ipv6) no_counts

    t4 : Tallies
    t4 = version_pass ipv4 0 returned a no_tallies

    applies :
        (k : ℕ)
        → (version_pass ipv6 0 returned b t4).applies (0 + k)
          ≡ applies_at ipv4 returned k + applies_at ipv6 returned k
    applies k =
        omega
          (arith, (pass-At ipv6 0 returned b t4 k).0, (pass-At ipv4 0 returned a no_tallies k).0)

    unaccounted :
        (k : ℕ)
        → (version_pass ipv6 0 returned b t4).unaccounted (0 + k)
          ≡ unmatched_at ipv4 a returned k + unmatched_at ipv6 b returned k
    unaccounted k =
        omega
          (arith, (pass-At ipv6 0 returned b t4 k).1, (pass-At ipv4 0 returned a no_tallies k).1)
