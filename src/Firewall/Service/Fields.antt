-- ===== src/Firewall/Service/Fields.antt =====
-- The fields of a rule as `encodeRule` and the form encoder write them.
use hrobot_go.Base.{
  lookup-cons, ℕ, ◌≡◌, inl, inr, refl, sym, ap, ap₂, subst, ◌∙◌, false, List, [], ◌∷◌, map, Bytes,
  codes, All, All-weaken, sort_strings_ascending, bytes_eq, bytes_eq_iff, Bool-cases, Map, keys,
  lookup, insert, lookup-insert, insert-NodupKeys, NodupKeys, Same, sort_strings-keys, held, none,
  some, value_or,
}
use hrobot_go.UrlEncode.{sorted_keys, hier_key}
use hrobot_go.UrlEncode.Parse.{field_pairs}
use hrobot_go.Firewall.Data.{FirewallRule}
use hrobot_go.Firewall.Service.{put_filled, encode_rule}
use hrobot_go.Firewall.Service.Filled.{
  filled, rule_fields, pick, lookup-cons_filled, rule_fields-NodupKeys, rule_fields-IsAscending,
}

lookup-put_filled :
    (k j v : Bytes) (m : Map Bytes)
    → lookup k (put_filled j v m) ≡ pick (bytes_eq j k) v (lookup k m)
unfolding put_filled pick
lookup-put_filled k j [] m = elim (Bool-cases (bytes_eq j k)) [
  | inl t ↦ rw t refl
  | inr f ↦ rw f refl
]
lookup-put_filled k j (c ∷ v) m =
    lookup-insert k j (c ∷ v) m
    ∙ elim (Bool-cases (bytes_eq j k)) [ inl t ↦ rw t refl | inr f ↦ rw f refl ]

ruleset field_laws = (lookup-put_filled, lookup-cons_filled, lookup-insert, lookup-cons)

-- What both maps hold at a key.
SameAt : FirewallRule → Bytes → Type 0
SameAt r k = lookup k (encode_rule r) ≡ lookup k (rule_fields r)

SameAt-action : (r : FirewallRule) → SameAt r (codes "action")
unfolding SameAt encode_rule filled bytes_eq pick lookup
SameAt-action r = simp (field_laws) refl

SameAt-dst_ip : (r : FirewallRule) → SameAt r (codes "dst_ip")
unfolding SameAt encode_rule filled bytes_eq pick lookup
SameAt-dst_ip r = simp (field_laws) refl

SameAt-dst_port : (r : FirewallRule) → SameAt r (codes "dst_port")
unfolding SameAt encode_rule filled bytes_eq pick lookup
SameAt-dst_port r = simp (field_laws) refl

SameAt-ip_version : (r : FirewallRule) → SameAt r (codes "ip_version")
unfolding SameAt encode_rule filled bytes_eq pick lookup
SameAt-ip_version r = simp (field_laws) refl

SameAt-name : (r : FirewallRule) → SameAt r (codes "name")
unfolding SameAt encode_rule filled bytes_eq pick lookup
SameAt-name r = simp (field_laws) refl

SameAt-protocol : (r : FirewallRule) → SameAt r (codes "protocol")
unfolding SameAt encode_rule filled bytes_eq pick lookup
SameAt-protocol r = simp (field_laws) refl

SameAt-src_ip : (r : FirewallRule) → SameAt r (codes "src_ip")
unfolding SameAt encode_rule filled bytes_eq pick lookup
SameAt-src_ip r = simp (field_laws) refl

SameAt-src_port : (r : FirewallRule) → SameAt r (codes "src_port")
unfolding SameAt encode_rule filled bytes_eq pick lookup
SameAt-src_port r = simp (field_laws) refl

SameAt-tcp_flags : (r : FirewallRule) → SameAt r (codes "tcp_flags")
unfolding SameAt encode_rule filled bytes_eq pick lookup
SameAt-tcp_flags r = simp (field_laws) refl

-- A key is one of the nine, or none of them is it.
field_names : List Bytes
field_names =
    codes "action"
    ∷ codes "dst_ip"
    ∷ codes "dst_port"
    ∷ codes "ip_version"
    ∷ codes "name"
    ∷ codes "protocol"
    ∷ codes "src_ip"
    ∷ codes "src_port"
    ∷ codes "tcp_flags"
    ∷ []

IsOther : Bytes → Type 0
IsOther k = All (λ name. bytes_eq name k ≡ false) field_names

SameAt-other : (r : FirewallRule) (k : Bytes) → IsOther k → SameAt r k
unfolding SameAt IsOther field_names encode_rule filled pick lookup
SameAt-other r k (h0, (h1, (h2, (h3, (h4, (h5, (h6, (h7, (h8, _))))))))) =
    simp (field_laws) (rw (h0, h1, h2, h3, h4, h5, h6, h7, h8) refl)

by_names :
    (P : Bytes → Type 0) (names : List Bytes) (k : Bytes)
    → All P names
    → (All (λ name. bytes_eq name k ≡ false) names → P k)
    → P k
by_names P [] k h other = other tt
by_names P (name ∷ names) k (hn, h) other = elim (Bool-cases (bytes_eq name k)) [
  | inl t ↦ subst P ((bytes_eq_iff name k).0 t) hn
  | inr f ↦ by_names P names k h (λ fs. other (f, fs))
]

Same-fields : (r : FirewallRule) → Same (encode_rule r) (rule_fields r)
unfolding SameAt IsOther field_names
Same-fields r k =
    by_names (SameAt r) field_names k
      (
        SameAt-action r,
        (
          SameAt-dst_ip r,
          (
            SameAt-dst_port r,
            (
              SameAt-ip_version r,
              (
                SameAt-name r,
                (
                  SameAt-protocol r,
                  (SameAt-src_ip r, (SameAt-src_port r, (SameAt-tcp_flags r, tt))),
                ),
              ),
            ),
          ),
        ),
      )
      (SameAt-other r k)

-- No field stands twice.
put_filled-NodupKeys : (k v : Bytes) (m : Map Bytes) → NodupKeys m → NodupKeys (put_filled k v m)
unfolding put_filled
put_filled-NodupKeys k [] m h = h
put_filled-NodupKeys k (c ∷ v) m h = insert-NodupKeys k (c ∷ v) m h

-- A map with no key twice, to which fields are added.
Unique : Type 0
Unique = (m : Map Bytes) × NodupKeys m

put_unique : Bytes → Bytes → Unique → Unique
unfolding Unique
put_unique k v (m, h) = (put_filled k v m, put_filled-NodupKeys k v m h)

encode_rule-NodupKeys : (r : FirewallRule) → NodupKeys (encode_rule r)
unfolding encode_rule put_unique Unique
encode_rule-NodupKeys r =
    let first =
      put_unique (codes "ip_version") r.ip_version (put_unique (codes "name") r.name ([], tt)) in
    let acted : Unique = (
      insert (codes "action") r.action first.0,
      insert-NodupKeys (codes "action") r.action first.0 first.1,
    ) in
    (put_unique (codes "tcp_flags") r.tcp_flags (
      put_unique (codes "dst_port") r.dest_port (
        put_unique (codes "src_port") r.source_port (
          put_unique (codes "dst_ip") r.dest_ip (
            put_unique (codes "src_ip") r.source_ip
              (put_unique (codes "protocol") r.protocol acted)))))).1

-- What the map holds at the keys of a list of pairs.
unfoldable pub Holds : Map Bytes → Map Bytes → Type 0
Holds m xs = All (λ (p : Bytes × Bytes). lookup p.0 m ≡ some p.1) xs

lookup-behind :
    (j w k v : Bytes) (m : Map Bytes)
    → lookup j m ≡ none
    → lookup k m ≡ some v
    → lookup k ((j, w) ∷ m) ≡ some v
unfolding lookup
lookup-behind j w k v m fresh h = elim (Bool-cases (bytes_eq j k)) [
  | inl t ↦ cc (sym fresh ∙ ap (λ k. lookup k m) ((bytes_eq_iff j k).0 t) ∙ h)
  | inr f ↦ rw f h
]

NodupKeys-Holds : (m : Map Bytes) → NodupKeys m → Holds m m
unfolding Holds
NodupKeys-Holds [] h = tt
NodupKeys-Holds ((k, v) ∷ m) (fresh, h) = (
  lookup-cons k k v m ∙ rw ((bytes_eq_iff k k).1 refl) refl,
  All-weaken _ _ (λ p q. lookup-behind k v p.0 p.1 m fresh q) m (NodupKeys-Holds m h),
)

-- The pairs of the form for fields of the rule `i` of a direction.
abbrev pub indexed : Bytes → ℕ → Map Bytes → List (Bytes × Bytes)
indexed direction i fields = map (λ (p : Bytes × Bytes). (hier_key direction i p.0, p.1)) fields

field_pairs-Holds :
    (direction : Bytes) (i : ℕ) (m xs : Map Bytes)
    → Holds m xs
    → field_pairs direction i m (keys xs) ≡ indexed direction i xs
unfolding Holds
field_pairs-Holds direction i m [] h = refl
field_pairs-Holds direction i m ((k, v) ∷ xs) (hk, h) =
    ap₂ (λ o rest. (hier_key direction i k, value_or [] o) ∷ rest) hk
      (field_pairs-Holds direction i m xs h)

pub sorted_keys-encode_rule :
    (r : FirewallRule) → sorted_keys (encode_rule r) ≡ keys (rule_fields r)
unfolding sorted_keys
sorted_keys-encode_rule r =
    sort_strings-keys (encode_rule r) (rule_fields r) (encode_rule-NodupKeys r)
      (rule_fields-NodupKeys r) (λ k. ap held (Same-fields r k))
    ∙ sort_strings_ascending (keys (rule_fields r)) (rule_fields-IsAscending r)

pub encode_rule-Holds : (r : FirewallRule) → Holds (encode_rule r) (rule_fields r)
unfolding Holds
encode_rule-Holds r =
    All-weaken _ _ (λ p q. Same-fields r p.0 ∙ q) (rule_fields r)
      (NodupKeys-Holds (rule_fields r) (rule_fields-NodupKeys r))

-- The form of a rule has its action and every other field that is not empty, in ascending order
-- of their names, each with its exact value, and nothing else.
pub field_pairs-encode_rule :
    (direction : Bytes) (i : ℕ) (r : FirewallRule)
    → field_pairs direction i (encode_rule r) (sorted_keys (encode_rule r))
      ≡ indexed direction i (rule_fields r)
field_pairs-encode_rule direction i r =
    ap (field_pairs direction i (encode_rule r)) (sorted_keys-encode_rule r)
    ∙ field_pairs-Holds direction i (encode_rule r) (rule_fields r) (encode_rule-Holds r)
