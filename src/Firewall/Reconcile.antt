-- ===== src/Firewall/Reconcile.antt =====
-- What `ServerInjectedRules` and `Without` give together: stripping what the service prepended.
use hrobot_go.Base.{
  ◌-◌, ◌≡◌, ◌≢◌, ◌↔◌, ◌⊎◌, inl, inr, refl, sym, ap, ◌∙◌, Bytes, true, false, List, [], ◌∷◌, ◌++◌,
  arith, All, All-append, count, count-append, count-nil, count-cons_of_eq, count-cons_ne, eq_or_ne,
  bytes_eq, bytes_eq_iff, Bool-cases,
}
use hrobot_go.Firewall.Data.{
  FirewallRule, FirewallRules, ipv4, ipv6, rule_eq, applies_to, cleared, project_rules, equivalent,
}
use hrobot_go.Firewall.Equivalence.{
  expand, expand_rule, expand-SameProjections, HasVersion, equivalent-normalised,
}
use hrobot_go.Firewall.Pending.{no_counts, tally, drop_pending, remove_rules, without}
use hrobot_go.Firewall.Pending.Laws.{
  tally-eq-count, remove_rules-drop_pending, count-drop_pending, drop_pending-append,
}
use hrobot_go.Firewall.Injected.{injected_rules, server_injected_rules}
use hrobot_go.Firewall.Injected.Passes.{injected_rules-surplus}
use hrobot_go.Firewall.Versioned.{
  IsVersioned, Agree, four_ne_six, applies_ipv4, applies_ipv6, same_cleared, surplus-drop_pending,
}

-- Among versioned rules, a cleared rule occurs in a projection as often as the rule in the list.
count-project_rules :
    (v : Bytes) (x : FirewallRule) (rules : List FirewallRule)
    → ((r : FirewallRule) → IsVersioned r → (applies_to r v ≡ true) ↔ (r.ip_version ≡ v))
    → All IsVersioned rules
    → x.ip_version ≡ v
    → count (cleared x) (project_rules rules v) ≡ count x rules
count-project_rules v x [] applies h w =
    unfold project_rules in (count-nil (cleared x) ∙ sym (count-nil x))
count-project_rules v x (r ∷ rules) applies (hr, hs) w =
    step (Bool-cases (applies_to r v)) (eq_or_ne r x) (count-project_rules v x rules applies hs w)
  where
    kept : applies_to r v ≡ true → project_rules (r ∷ rules) v ≡ cleared r ∷ project_rules rules v
    kept b = unfold project_rules in rw b

    left : applies_to r v ≡ false → project_rules (r ∷ rules) v ≡ project_rules rules v
    left b = unfold project_rules in rw b

    step :
        (applies_to r v ≡ true) ⊎ (applies_to r v ≡ false)
        → (r ≡ x) ⊎ (r ≢ x)
        → count (cleared x) (project_rules rules v) ≡ count x rules
        → count (cleared x) (project_rules (r ∷ rules) v) ≡ count x (r ∷ rules)
    step (inl b) (inl e) ih = rw (kept b) (
        omega (
          arith,
          ih,
          count-cons_of_eq (cleared x) (cleared r) (project_rules rules v) (ap (λ y. cleared y) e),
          count-cons_of_eq x r rules e,
        ))
    step (inl b) (inr n) ih = rw (kept b) (
        omega (
          arith,
          ih,
          count-cons_ne (cleared x) (cleared r) (project_rules rules v)
              (λ q. n (same_cleared r x ((applies r hr).0 b ∙ sym w) q)),
          count-cons_ne x r rules n,
        ))
    step (inr b) (inl e) ih =
        absurd (clash b ((applies r hr).1 (ap (λ (y : FirewallRule). y.ip_version) e ∙ w)))
      where
        clash : applies_to r v ≡ false → applies_to r v ≡ true → ⊥
        clash p q = cc
    step (inr b) (inr n) ih = rw (left b) (omega (arith, ih, count-cons_ne x r rules n))

applies_to-ipv4 :
    (r : FirewallRule) → IsVersioned r → (applies_to r ipv4 ≡ true) ↔ (r.ip_version ≡ ipv4)
applies_to-ipv4 r (inl v) = (λ _. v, λ _. (applies_ipv4 r v).0)
applies_to-ipv4 r (inr v) =
    (λ b. cc ((applies_ipv6 r v).0, b), λ w. absurd (four_ne_six (sym w ∙ v)))

applies_to-ipv6 :
    (r : FirewallRule) → IsVersioned r → (applies_to r ipv6 ≡ true) ↔ (r.ip_version ≡ ipv6)
applies_to-ipv6 r (inl v) =
    (λ b. cc ((applies_ipv4 r v).1, b), λ w. absurd (four_ne_six (sym v ∙ w)))
applies_to-ipv6 r (inr v) = (λ _. v, λ _. (applies_ipv6 r v).1)

expand-IsVersioned :
    (rules : List FirewallRule) → All HasVersion rules → All IsVersioned (expand rules)
expand-IsVersioned [] h = unfold expand in tt
expand-IsVersioned (r ∷ rules) (h, hs) = step h (expand-IsVersioned rules hs)
  where
    keeps : r.ip_version ≢ [] → bytes_eq r.ip_version [] ≡ false
    keeps n = elim (Bool-cases (bytes_eq r.ip_version [])) [
      | inl b ↦ absurd (n ((bytes_eq_iff r.ip_version []).0 b))
      | inr b ↦ b
    ]

    step : HasVersion r → All IsVersioned (expand rules) → All IsVersioned (expand (r ∷ rules))
    step (inl none') ih =
        unfold expand expand_rule in
        rw ((bytes_eq_iff r.ip_version []).1 none') (inl refl, (inr refl, ih))
    step (inr one) ih = unfold expand expand_rule in rw (keeps (named one)) (one, ih)
      where
        named : (r.ip_version ≡ ipv4) ⊎ (r.ip_version ≡ ipv6) → r.ip_version ≢ []
        named (inl v) e = cc (sym v ∙ e)
        named (inr v) e = cc (sym v ∙ e)

-- The injected rules are the multiset difference of the returned rules and the posted ones,
-- where a posted rule for both versions stands for its two halves.
pub injected_rules-drop_pending :
    (posted returned : List FirewallRule)
    → All HasVersion posted
    → All IsVersioned returned
    → injected_rules posted returned ≡ drop_pending (λ x. count x (expand posted)) returned
injected_rules-drop_pending posted returned hp hr =
    injected_rules-surplus posted returned
    ∙ surplus-drop_pending _ _ (λ x. count x (expand posted)) returned hr agree
  where
    versioned : All IsVersioned (expand posted)
    versioned = expand-IsVersioned posted hp

    available :
        (v : Bytes) (x : FirewallRule)
        → project_rules (expand posted) v ≡ project_rules posted v
        → tally (project_rules posted v) no_counts (cleared x)
          ≡ count (cleared x) (project_rules (expand posted) v)
    available v x same =
        rw same (omega (arith, tally-eq-count (project_rules posted v) no_counts (cleared x)))

    agree :
        Agree
          (tally (project_rules posted ipv4) no_counts)
          (tally (project_rules posted ipv6) no_counts)
          (λ x. count x (expand posted))
    agree x = (
      λ w.
          available ipv4 x (expand-SameProjections posted).0
          ∙ count-project_rules ipv4 x (expand posted) applies_to-ipv4 versioned w,
      λ w.
          available ipv6 x (expand-SameProjections posted).1
          ∙ count-project_rules ipv6 x (expand posted) applies_to-ipv6 versioned w,
    )

pub count-injected_rules :
    (posted returned : List FirewallRule) (x : FirewallRule)
    → All HasVersion posted
    → All IsVersioned returned
    → count x (injected_rules posted returned) ≡ count x returned - count x (expand posted)
count-injected_rules posted returned x hp hr =
    ap (count x) (injected_rules-drop_pending posted returned hp hr)
    ∙ count-drop_pending (λ y. count y (expand posted)) returned x

-- If the service prepends rules to the normalised form of what was posted, then taking the
-- injected rules out of what it returned leaves that normalised form.
pub remove_rules-injected_rules :
    (posted before : List FirewallRule)
    → All HasVersion posted
    → All IsVersioned before
    → remove_rules (before ++ expand posted) (injected_rules posted (before ++ expand posted))
      ≡ expand posted
remove_rules-injected_rules posted before hp hb =
    remove_rules-drop_pending (before ++ expand posted)
      (injected_rules posted (before ++ expand posted))
    ∙ drop_pending-append _ before (expand posted) prepended
  where
    versioned : All IsVersioned (before ++ expand posted)
    versioned = All-append _ before (expand posted) hb (expand-IsVersioned posted hp)

    prepended :
        (x : FirewallRule)
        → count x (injected_rules posted (before ++ expand posted)) ≡ count x before
    prepended x = omega (
      arith,
      count-injected_rules posted (before ++ expand posted) x hp versioned,
      count-append x before (expand posted),
    )

-- What the service returns where it prepends rules in both directions.
abbrev pub prepended_to : FirewallRules → FirewallRules → FirewallRules
prepended_to before posted = record {
  input = before.input ++ expand posted.input;
  output = before.output ++ expand posted.output;
}

abbrev pub AllRules : (FirewallRule → Type 0) → FirewallRules → Type 0
AllRules P r = All P r.input × All P r.output

-- The reconciliation that the comment on `Without` describes finds no drift, where every posted
-- rule is for ipv4, for ipv6 or for both, and the service returned its normalised form behind rules
-- that each name a version: what it returned, with the injected rules removed, is equivalent to
-- what was posted.
pub equivalent-without-server_injected_rules :
    (posted before : FirewallRules)
    → AllRules HasVersion posted
    → AllRules IsVersioned before
    → let returned = prepended_to before posted in
      equivalent (without returned (server_injected_rules posted returned)) posted ≡ true
unfolding without server_injected_rules
equivalent-without-server_injected_rules posted before hp hb =
    rw
      (
        remove_rules-injected_rules posted.input before.input hp.0 hb.0,
        remove_rules-injected_rules posted.output before.output hp.1 hb.1,
      )
      (equivalent-normalised posted)
