-- ===== src/Firewall/Pending/Laws.antt =====
-- `Without` as a difference of multisets that keeps the order.
use hrobot_go.Base.{
  ℕ, ◌+◌, ◌-◌, ◌<◌, ◌≡◌, ◌≢◌, ◌⊎◌, inl, inr, refl, sym, ◌∙◌, ap, fun_ext, List, [], ◌∷◌, ◌++◌,
  arith, count, count-nil, count-cons_of_eq, count-cons_ne, eq_or_ne,
}
use hrobot_go.Firewall.Data.{FirewallRule, FirewallRules, rule_eq, same_rule_iff}
use hrobot_go.Firewall.Pending.{
  Counts, no_counts, increment, decrement, tally, drop_pending, remove_rules, without,
}

increment_of_eq : (r x : FirewallRule) (m : Counts) → r ≡ x → increment r m x ≡ m x + 1
unfolding increment
increment_of_eq r x m h = rw ((same_rule_iff r x).1 h)

increment_ne : (r x : FirewallRule) (m : Counts) → r ≢ x → increment r m x ≡ m x
unfolding increment
increment_ne r x m h = ground (arith, same_rule_iff r x)

pub decrement_of_eq : (r x : FirewallRule) (m : Counts) → r ≡ x → decrement r m x ≡ m x - 1
unfolding decrement
decrement_of_eq r x m h = rw ((same_rule_iff r x).1 h)

pub decrement_ne : (r x : FirewallRule) (m : Counts) → r ≢ x → decrement r m x ≡ m x
unfolding decrement
decrement_ne r x m h = ground (arith, same_rule_iff r x)

pub tally-eq-count :
    (rules : List FirewallRule) (m : Counts) (x : FirewallRule)
    → tally rules m x ≡ m x + count x rules
unfolding tally
tally-eq-count [] m x = omega (arith, count-nil x)
tally-eq-count (r ∷ rules) m x = step (tally-eq-count rules (increment r m) x) (eq_or_ne r x)
  where
    step :
        tally rules (increment r m) x ≡ increment r m x + count x rules
        → (r ≡ x) ⊎ (r ≢ x)
        → tally rules (increment r m) x ≡ m x + count x (r ∷ rules)
    step ih (inl e) = omega (arith, ih, increment_of_eq r x m e, count-cons_of_eq x r rules e)
    step ih (inr n) = omega (arith, ih, increment_ne r x m n, count-cons_ne x r rules n)

pub drop_pending_keep :
    (p : Counts) (r : FirewallRule) (rules : List FirewallRule)
    → p r ≡ 0
    → drop_pending p (r ∷ rules) ≡ r ∷ drop_pending p rules
unfolding drop_pending
drop_pending_keep p r rules h = rw h

pub drop_pending_skip :
    (p : Counts) (r : FirewallRule) (rules : List FirewallRule)
    → 0 < p r
    → drop_pending p (r ∷ rules) ≡ drop_pending (decrement r p) rules
unfolding drop_pending
drop_pending_skip p r rules h = ground arith

pub zero_or_pos : (n : ℕ) → (n ≡ 0) ⊎ (0 < n)
zero_or_pos n = omega arith

pub drop_pending-nothing :
    (p : Counts) (rules : List FirewallRule)
    → ((x : FirewallRule) → p x ≡ 0)
    → drop_pending p rules ≡ rules
drop_pending-nothing p [] h = unfold drop_pending in refl
drop_pending-nothing p (r ∷ rules) h =
    rw (drop_pending_keep p r rules (h r), drop_pending-nothing p rules h)

-- Only the counts matter.
pub drop_pending-congr :
    (p q : Counts) (rules : List FirewallRule)
    → ((x : FirewallRule) → p x ≡ q x)
    → drop_pending p rules ≡ drop_pending q rules
drop_pending-congr p q rules h = ap (λ m. drop_pending m rules) (fun_ext h)

pub remove_rules-drop_pending :
    (rules remove : List FirewallRule)
    → remove_rules rules remove ≡ drop_pending (λ x. count x remove) rules
unfolding remove_rules
remove_rules-drop_pending rules [] = sym (drop_pending-nothing _ rules count-nil)
remove_rules-drop_pending rules (r ∷ remove) =
    drop_pending-congr _ _ rules (λ x. tally-eq-count (r ∷ remove) no_counts x ∙ zero_left _)
  where
    zero_left : (n : ℕ) → 0 + n ≡ n
    zero_left n = omega arith

pub count-drop_pending :
    (p : Counts) (rules : List FirewallRule) (x : FirewallRule)
    → count x (drop_pending p rules) ≡ count x rules - p x
count-drop_pending p [] x = unfold drop_pending in omega (arith, count-nil x)
count-drop_pending p (r ∷ rules) x =
    step (zero_or_pos (p r)) (eq_or_ne r x) (count-drop_pending p rules x)
      (count-drop_pending (decrement r p) rules x)
  where
    step :
        (p r ≡ 0) ⊎ (0 < p r)
        → (r ≡ x) ⊎ (r ≢ x)
        → count x (drop_pending p rules) ≡ count x rules - p x
        → count x (drop_pending (decrement r p) rules) ≡ count x rules - decrement r p x
        → count x (drop_pending p (r ∷ rules)) ≡ count x (r ∷ rules) - p x
    step (inl z) (inl e) ih ih' = rw (drop_pending_keep p r rules z) (
        omega (
          arith,
          ap p e,
          ih,
          z,
          count-cons_of_eq x r rules e,
          count-cons_of_eq x r (drop_pending p rules) e,
        ))
    step (inl z) (inr n) ih ih' =
        rw (drop_pending_keep p r rules z)
          (rw (count-cons_ne x r (drop_pending p rules) n, count-cons_ne x r rules n) ih)
    step (inr s) (inl e) ih ih' =
        rw (drop_pending_skip p r rules s)
          (omega (arith, ap p e, ih', s, count-cons_of_eq x r rules e, decrement_of_eq r x p e))
    step (inr s) (inr n) ih ih' =
        rw (drop_pending_skip p r rules s)
          (omega (arith, ih', decrement_ne r x p n, count-cons_ne x r rules n))

pub count-remove_rules :
    (rules remove : List FirewallRule) (x : FirewallRule)
    → count x (remove_rules rules remove) ≡ count x rules - count x remove
count-remove_rules rules remove x =
    ap (count x) (remove_rules-drop_pending rules remove)
    ∙ count-drop_pending (λ y. count y remove) rules x

-- One list is another with entries left out, in the same order.
pub data IsSublist : List FirewallRule → List FirewallRule → Type 0 where
  done : IsSublist [] []
  left_out :
      {xs ys : List FirewallRule} (y : FirewallRule) → IsSublist xs ys → IsSublist xs (y ∷ ys)
  taken :
      {xs ys : List FirewallRule} (y : FirewallRule) → IsSublist xs ys → IsSublist (y ∷ xs) (y ∷ ys)

drop_pending-IsSublist :
    (p : Counts) (rules : List FirewallRule) → IsSublist (drop_pending p rules) rules
drop_pending-IsSublist p [] = unfold drop_pending in done
drop_pending-IsSublist p (r ∷ rules) =
    step (zero_or_pos (p r)) (drop_pending-IsSublist p rules)
      (drop_pending-IsSublist (decrement r p) rules)
  where
    step :
        (p r ≡ 0) ⊎ (0 < p r)
        → IsSublist (drop_pending p rules) rules
        → IsSublist (drop_pending (decrement r p) rules) rules
        → IsSublist (drop_pending p (r ∷ rules)) (r ∷ rules)
    step (inl z) ih ih' = rw (drop_pending_keep p r rules z) (taken r ih)
    step (inr s) ih ih' = rw (drop_pending_skip p r rules s) (left_out r ih')

-- In each direction `Without` removes as many copies of each rule as are to be removed, or all
-- that there are, and keeps the others in their order.
pub without_lem :
    (r remove : FirewallRules) (x : FirewallRule)
    → (count x (without r remove).input ≡ count x r.input - count x remove.input)
      × (count x (without r remove).output ≡ count x r.output - count x remove.output)
      × IsSublist (without r remove).input r.input
      × IsSublist (without r remove).output r.output
unfolding without
without_lem r remove x = (
  count-remove_rules r.input remove.input x,
  count-remove_rules r.output remove.output x,
  rw (remove_rules-drop_pending r.input remove.input) (drop_pending-IsSublist _ r.input),
  rw (remove_rules-drop_pending r.output remove.output) (drop_pending-IsSublist _ r.output),
)

-- Dropping exactly the rules of a prefix leaves what follows it.
pub drop_pending-append :
    (p : Counts) (before rules : List FirewallRule)
    → ((x : FirewallRule) → p x ≡ count x before)
    → drop_pending p (before ++ rules) ≡ rules
drop_pending-append p [] rules h = drop_pending-nothing p rules (λ x. h x ∙ count-nil x)
drop_pending-append p (r ∷ before) rules h =
    rw
      (drop_pending_skip p r (before ++ rules)
        (omega (arith, h r, count-cons_of_eq r r before refl)))
      (drop_pending-append (decrement r p) before rules (λ x. fewer x (eq_or_ne r x)))
  where
    fewer : (x : FirewallRule) → (r ≡ x) ⊎ (r ≢ x) → decrement r p x ≡ count x before
    fewer x (inl e) = omega (arith, h x, decrement_of_eq r x p e, count-cons_of_eq x r before e)
    fewer x (inr n) = omega (arith, h x, decrement_ne r x p n, count-cons_ne x r before n)
