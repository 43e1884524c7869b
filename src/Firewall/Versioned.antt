-- ===== src/Firewall/Versioned.antt =====
-- Over rules that each name one IP version, the two passes of `ServerInjectedRules` are one loop.
use hrobot_go.Base.{
  ◌<◌, ◌≡◌, ◌≢◌, ◌⊎◌, inl, inr, refl, sym, ap, ◌∙◌, true, false, List, [], ◌∷◌, arith, All,
  eq_or_ne, bytes_eq, bytes_eq_iff,
}
use hrobot_go.Firewall.Data.{FirewallRule, ipv4, ipv6, rule_eq, applies_to, cleared}
use hrobot_go.Firewall.Equivalence.{}
use hrobot_go.Firewall.Pending.{Counts, decrement, drop_pending}
use hrobot_go.Firewall.Pending.Laws.{
  decrement_of_eq, decrement_ne, drop_pending_keep, drop_pending_skip, zero_or_pos,
}
use hrobot_go.Firewall.Injected.{consume}
use hrobot_go.Firewall.Injected.Passes.{surplus}

-- A rule that names one of the two versions, as in the normalised form.
abbrev pub IsVersioned : FirewallRule → Type 0
IsVersioned r = (r.ip_version ≡ ipv4) ⊎ (r.ip_version ≡ ipv6)

-- The counts of the two passes agree with one count by whole rules.
abbrev pub Agree : Counts → Counts → Counts → Type 0
Agree a b p =
    (x : FirewallRule)
    → (x.ip_version ≡ ipv4 → a (cleared x) ≡ p x) × (x.ip_version ≡ ipv6 → b (cleared x) ≡ p x)

pub applies_ipv4 :
    (r : FirewallRule)
    → r.ip_version ≡ ipv4
    → (applies_to r ipv4 ≡ true) × (applies_to r ipv6 ≡ false)
unfolding applies_to
applies_ipv4 r h = rw h (refl, refl)

pub applies_ipv6 :
    (r : FirewallRule)
    → r.ip_version ≡ ipv6
    → (applies_to r ipv4 ≡ false) × (applies_to r ipv6 ≡ true)
unfolding applies_to
applies_ipv6 r h = rw h (refl, refl)

-- Rules of one version are the same if they are the same with the version cleared.
pub same_cleared :
    (r x : FirewallRule) → r.ip_version ≡ x.ip_version → cleared r ≡ cleared x → r ≡ x
same_cleared r x h k = ground arith

surplus-ipv4_keep :
    (a b : Counts) (r : FirewallRule) (rules : List FirewallRule)
    → r.ip_version ≡ ipv4
    → a (cleared r) ≡ 0
    → surplus a b (r ∷ rules) ≡ r ∷ surplus a b rules
unfolding surplus consume
surplus-ipv4_keep a b r rules v z = ground (arith, applies_ipv4 r v)

surplus-ipv4_skip :
    (a b : Counts) (r : FirewallRule) (rules : List FirewallRule)
    → r.ip_version ≡ ipv4
    → 0 < a (cleared r)
    → surplus a b (r ∷ rules) ≡ surplus (decrement (cleared r) a) b rules
unfolding surplus consume
surplus-ipv4_skip a b r rules v s = ground (arith, applies_ipv4 r v)

surplus-ipv6_keep :
    (a b : Counts) (r : FirewallRule) (rules : List FirewallRule)
    → r.ip_version ≡ ipv6
    → b (cleared r) ≡ 0
    → surplus a b (r ∷ rules) ≡ r ∷ surplus a b rules
unfolding surplus consume
surplus-ipv6_keep a b r rules v z = ground (arith, applies_ipv6 r v)

surplus-ipv6_skip :
    (a b : Counts) (r : FirewallRule) (rules : List FirewallRule)
    → r.ip_version ≡ ipv6
    → 0 < b (cleared r)
    → surplus a b (r ∷ rules) ≡ surplus a (decrement (cleared r) b) rules
unfolding surplus consume
surplus-ipv6_skip a b r rules v s = ground (arith, applies_ipv6 r v)

pub four_ne_six : ipv4 ≢ ipv6
unfolding bytes_eq
four_ne_six p = cc ((bytes_eq_iff ipv4 ipv6).1 p)

versions_differ : (r x : FirewallRule) → r.ip_version ≡ ipv4 → x.ip_version ≡ ipv6 → r ≢ x
versions_differ r x h k e = four_ne_six (sym h ∙ ap (λ (y : FirewallRule). y.ip_version) e ∙ k)

decrement-cleared :
    (m p : Counts) (r x : FirewallRule)
    → r.ip_version ≡ x.ip_version
    → m (cleared x) ≡ p x
    → decrement (cleared r) m (cleared x) ≡ decrement r p x
decrement-cleared m p r x v h = elim (eq_or_ne r x) [
  | inl e ↦ omega (
    arith,
    decrement_of_eq (cleared r) (cleared x) m (ap (λ y. cleared y) e),
    decrement_of_eq r x p e,
    h,
  )
  | inr n ↦ omega (
    arith,
    decrement_ne (cleared r) (cleared x) m (λ q. n (same_cleared r x v q)),
    decrement_ne r x p n,
    h,
  )
]

Agree-ipv4 :
    (a b p : Counts) (r : FirewallRule)
    → r.ip_version ≡ ipv4
    → Agree a b p
    → Agree (decrement (cleared r) a) b (decrement r p)
Agree-ipv4 a b p r v agree x = (
  λ w. decrement-cleared a p r x (v ∙ sym w) ((agree x).0 w),
  λ w. (agree x).1 w ∙ sym (decrement_ne r x p (versions_differ r x v w)),
)

Agree-ipv6 :
    (a b p : Counts) (r : FirewallRule)
    → r.ip_version ≡ ipv6
    → Agree a b p
    → Agree a (decrement (cleared r) b) (decrement r p)
Agree-ipv6 a b p r v agree x = (
  λ w. (agree x).0 w ∙ sym (decrement_ne r x p (λ e. versions_differ x r w v (sym e))),
  λ w. decrement-cleared b p r x (v ∙ sym w) ((agree x).1 w),
)

-- Over rules that each name one version, the two passes are one loop over whole rules.
pub surplus-drop_pending :
    (a b p : Counts) (rules : List FirewallRule)
    → All IsVersioned rules
    → Agree a b p
    → surplus a b rules ≡ drop_pending p rules
surplus-drop_pending a b p [] h agree = unfold drop_pending surplus in refl
surplus-drop_pending a b p (r ∷ rules) (inl v, hs) agree =
    step (zero_or_pos (p r)) (surplus-drop_pending a b p rules hs agree) (
      surplus-drop_pending (decrement (cleared r) a) b (decrement r p) rules hs
        (Agree-ipv4 a b p r v agree))
  where
    step :
        (p r ≡ 0) ⊎ (0 < p r)
        → surplus a b rules ≡ drop_pending p rules
        → surplus (decrement (cleared r) a) b rules ≡ drop_pending (decrement r p) rules
        → surplus a b (r ∷ rules) ≡ drop_pending p (r ∷ rules)
    step (inl z) ih ih' =
        surplus-ipv4_keep a b r rules v ((agree r).0 v ∙ z)
        ∙ ap (λ rest. r ∷ rest) ih
        ∙ sym (drop_pending_keep p r rules z)
    step (inr s) ih ih' =
        surplus-ipv4_skip a b r rules v (omega (arith, (agree r).0 v, s))
        ∙ ih'
        ∙ sym (drop_pending_skip p r rules s)
surplus-drop_pending a b p (r ∷ rules) (inr v, hs) agree =
    step (zero_or_pos (p r)) (surplus-drop_pending a b p rules hs agree) (
      surplus-drop_pending a (decrement (cleared r) b) (decrement r p) rules hs
        (Agree-ipv6 a b p r v agree))
  where
    step :
        (p r ≡ 0) ⊎ (0 < p r)
        → surplus a b rules ≡ drop_pending p rules
        → surplus a (decrement (cleared r) b) rules ≡ drop_pending (decrement r p) rules
        → surplus a b (r ∷ rules) ≡ drop_pending p (r ∷ rules)
    step (inl z) ih ih' =
        surplus-ipv6_keep a b r rules v ((agree r).1 v ∙ z)
        ∙ ap (λ rest. r ∷ rest) ih
        ∙ sym (drop_pending_keep p r rules z)
    step (inr s) ih ih' =
        surplus-ipv6_skip a b r rules v (omega (arith, (agree r).1 v, s))
        ∙ ih'
        ∙ sym (drop_pending_skip p r rules s)
