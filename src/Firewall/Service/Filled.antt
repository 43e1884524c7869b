-- ===== src/Firewall/Service/Filled.antt =====
-- The fields of a rule that are not empty, in ascending order, as `encodeRule` chooses them.
use hrobot_go.Base.{
  ◌≡◌, inl, inr, refl, ◌∙◌, Bool, true, false, [], ◌∷◌, Bytes, codes, All, IsAscending, bytes_eq,
  Bool-cases, Map, keys, lookup, NodupKeys, Option, none, some, text_leb,
}
use hrobot_go.Firewall.Data.{FirewallRule}

-- A field is there if its value is not empty.
unfoldable pub cons_filled : Bytes → Bytes → Map Bytes → Map Bytes
cons_filled k [] m = m
cons_filled k (c ∷ v) m = (k, c ∷ v) ∷ m

unfoldable pub filled : Map Bytes → Map Bytes
unfolding cons_filled
filled [] = []
filled ((k, v) ∷ m) = cons_filled k v (filled m)

-- The fields besides the action, in ascending order of their names.
abbrev pub other_fields : FirewallRule → Map Bytes
other_fields r =
    (codes "dst_ip", r.dest_ip)
    ∷ (codes "dst_port", r.dest_port)
    ∷ (codes "ip_version", r.ip_version)
    ∷ (codes "name", r.name)
    ∷ (codes "protocol", r.protocol)
    ∷ (codes "src_ip", r.source_ip)
    ∷ (codes "src_port", r.source_port)
    ∷ (codes "tcp_flags", r.tcp_flags)
    ∷ []

-- The action always, and every other field that is filled.
abbrev pub rule_fields : FirewallRule → Map Bytes
rule_fields r = (codes "action", r.action) ∷ filled (other_fields r)

-- A filled value where the test holds, and otherwise the rest.
unfoldable pub pick : Bool → Bytes → Option Bytes → Option Bytes
pick true (c ∷ v) o = some (c ∷ v)
pick true [] o = o
pick false v o = o

pub lookup-cons_filled :
    (k j v : Bytes) (m : Map Bytes)
    → lookup k (cons_filled j v m) ≡ pick (bytes_eq j k) v (lookup k m)
unfolding pick lookup cons_filled
lookup-cons_filled k j [] m = elim (Bool-cases (bytes_eq j k)) [
  | inl t ↦ rw t refl
  | inr f ↦ rw f refl
]
lookup-cons_filled k j (c ∷ v) m = elim (Bool-cases (bytes_eq j k)) [
  | inl t ↦ rw t refl
  | inr f ↦ rw f refl
]

pub lookup-filled : (k : Bytes) (m : Map Bytes) → lookup k m ≡ none → lookup k (filled m) ≡ none
unfolding filled lookup pick
lookup-filled k [] h = refl
lookup-filled k ((j, v) ∷ m) h = elim (Bool-cases (bytes_eq j k)) [
  | inl t ↦ cc (rw t at h)
  | inr f ↦ lookup-cons_filled k j v (filled m) ∙ rw f (lookup-filled k m (rw f at h))
]

pub cons_filled-NodupKeys :
    (k v : Bytes) (m : Map Bytes) → lookup k m ≡ none → NodupKeys m → NodupKeys (cons_filled k v m)
unfolding cons_filled
cons_filled-NodupKeys k [] m fresh h = h
cons_filled-NodupKeys k (c ∷ v) m fresh h = (fresh, h)

pub filled-NodupKeys : (m : Map Bytes) → NodupKeys m → NodupKeys (filled m)
unfolding filled
filled-NodupKeys [] h = tt
filled-NodupKeys ((k, v) ∷ m) (fresh, h) =
    cons_filled-NodupKeys k v (filled m) (lookup-filled k m fresh) (filled-NodupKeys m h)

pub rule_fields-NodupKeys : (r : FirewallRule) → NodupKeys (rule_fields r)
unfolding lookup bytes_eq
rule_fields-NodupKeys r = (
  lookup-filled (codes "action") (other_fields r) refl,
  filled-NodupKeys (other_fields r)
      (refl, (refl, (refl, (refl, (refl, (refl, (refl, (refl, tt)))))))),
)

pub keys-filled-All :
    (P : Bytes → Type 0) (m : Map Bytes) → All P (keys m) → All P (keys (filled m))
unfolding filled cons_filled
keys-filled-All P [] h = tt
keys-filled-All P ((k, []) ∷ m) (hk, h) = keys-filled-All P m h
keys-filled-All P ((k, c ∷ v) ∷ m) (hk, h) = (hk, keys-filled-All P m h)

pub filled-IsAscending : (m : Map Bytes) → IsAscending (keys m) → IsAscending (keys (filled m))
unfolding filled cons_filled
filled-IsAscending [] h = tt
filled-IsAscending ((k, []) ∷ m) (hk, h) = filled-IsAscending m h
filled-IsAscending ((k, c ∷ v) ∷ m) (hk, h) = (keys-filled-All _ m hk, filled-IsAscending m h)

pub rule_fields-IsAscending : (r : FirewallRule) → IsAscending (keys (rule_fields r))
unfolding text_leb
rule_fields-IsAscending r = (
  keys-filled-All _ (other_fields r)
      (refl, (refl, (refl, (refl, (refl, (refl, (refl, (refl, tt)))))))),
  filled-IsAscending (other_fields r) (
    (refl, (refl, (refl, (refl, (refl, (refl, (refl, tt))))))),
    (
      (refl, (refl, (refl, (refl, (refl, (refl, tt)))))),
      (
        (refl, (refl, (refl, (refl, (refl, tt))))),
        (
          (refl, (refl, (refl, (refl, tt)))),
          ((refl, (refl, (refl, tt))), ((refl, (refl, tt)), ((refl, tt), (tt, tt)))),
        ),
      ),
    ),
  ),
)

-- What holds of every field holds of those that are filled.
pub filled-All : (P : Bytes × Bytes → Type 0) (m : Map Bytes) → All P m → All P (filled m)
unfolding filled cons_filled
filled-All P [] h = tt
filled-All P ((k, []) ∷ m) (hk, h) = filled-All P m h
filled-All P ((k, c ∷ v) ∷ m) (hk, h) = (hk, filled-All P m h)
