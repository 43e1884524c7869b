-- ===== src/Services/Asks/Hosts/Forms.antt =====
-- The forms of the boot operations as settings.
use hrobot_go.Base.{
  ◌≡◌, refl, sym, ap, ◌∙◌, inl, inr, Bool-cases, List, [], ◌∷◌, ◌++◌, append-nil, append_assoc,
  Bytes, codes, none, zero, suc, ℤ, pos, negsuc, lookup, lookup-insert, insert, NodupKeys, bytes_eq,
  bytes_eq_iff,
}
use hrobot_go.Url.Values.{Values, set, add}
use hrobot_go.Url.Settings.{filled, lookup-settings, settings, put_all}
use hrobot_go.Services.Asks.{}
use hrobot_go.Services.Asks.Storage.{filled_of}
use hrobot_go.Services.Boot.{
  RescueActivateOpts, LinuxActivateOpts, VncActivateOpts, set_arch, set_filled, add_keys,
  rescue_form, linux_form, vnc_form,
}
use hrobot_go.Services.Asks.Hosts.{arch_of}

abbrev key_name : Bytes
key_name = codes "authorized_key[]"

-- The settings of the forms, the last one set first.
unfoldable pub rescue_settings : RescueActivateOpts → Values
rescue_settings o =
    (key_name, o.authorized_keys)
    ∷ (codes "keyboard", filled_of o.keyboard)
    ∷ (codes "arch", arch_of o.arch)
    ∷ (codes "os", o.os ∷ [])
    ∷ []

unfoldable pub linux_settings : LinuxActivateOpts → Values
linux_settings o =
    (key_name, o.authorized_keys)
    ∷ (codes "arch", arch_of o.arch)
    ∷ (codes "lang", o.lang ∷ [])
    ∷ (codes "dist", o.dist ∷ [])
    ∷ []

unfoldable pub vnc_settings : VncActivateOpts → Values
vnc_settings o =
    (codes "arch", arch_of o.arch) ∷ (codes "lang", o.lang ∷ []) ∷ (codes "dist", o.dist ∷ []) ∷ []

insert_again :
    (k : Bytes) (a b : List Bytes) (m : Values) → insert k a (insert k b m) ≡ insert k a m
unfolding insert
insert_again k a b [] = rw ((bytes_eq_iff k k).1 refl) refl
insert_again k a b ((j, w) ∷ m) = elim (Bool-cases (bytes_eq j k)) [
  | inl t ↦ rw t (rw ((bytes_eq_iff k k).1 refl) refl)
  | inr f ↦ rw f (rw f (ap (λ m. (j, w) ∷ m) (insert_again k a b m)))
]

-- The loop of `Add` puts all the values behind those that are there.
add_lem :
    (v : Bytes) (vs : List Bytes) (m : Values)
    → add key_name v (insert key_name vs m) ≡ insert key_name (vs ++ v ∷ []) m
unfolding add
add_lem v vs m =
    rw (lookup-insert key_name key_name vs m) (insert_again key_name (vs ++ v ∷ []) vs m)

add_keys_more :
    (ks vs : List Bytes) (m : Values)
    → add_keys ks (insert key_name vs m) ≡ insert key_name (vs ++ ks) m
add_keys_more [] vs m = ap (λ vs. insert key_name vs m) (sym (append-nil vs))
add_keys_more (k ∷ ks) vs m =
    ap (add_keys ks) (add_lem k vs m)
    ∙ add_keys_more ks (vs ++ k ∷ []) m
    ∙ ap (λ vs. insert key_name vs m) (append_assoc vs (k ∷ []) ks)

add_keys_lem :
    (ks : List Bytes) (m : Values)
    → lookup key_name m ≡ none
    → add_keys ks m ≡ put_all key_name ks m
unfolding put_all add
add_keys_lem [] m fresh = refl
add_keys_lem (k ∷ ks) m fresh = rw fresh (add_keys_more ks (k ∷ []) m)

set_arch_lem : (n : ℤ) (m : Values) → set_arch n m ≡ put_all (codes "arch") (arch_of n) m
unfolding put_all set
set_arch_lem (pos zero) m = refl
set_arch_lem (pos (suc n)) m = refl
set_arch_lem (negsuc n) m = refl

set_filled_lem : (k v : Bytes) (m : Values) → set_filled k v m ≡ put_all k (filled_of v) m
unfolding put_all set
set_filled_lem k [] m = refl
set_filled_lem k (c ∷ v) m = refl

set_lem : (k v : Bytes) (m : Values) → set k v m ≡ put_all k (v ∷ []) m
unfolding put_all set
set_lem k v m = refl

ruleset set_laws = (set_arch_lem, set_filled_lem, set_lem)

-- The settings behind the keys, which have none.
keys-settings :
    (ks : List Bytes) (m : Values)
    → NodupKeys m
    → lookup key_name m ≡ none
    → add_keys ks (settings m) ≡ settings ((key_name, ks) ∷ m)
unfolding settings filled
keys-settings ks m u fresh =
    add_keys_lem ks (settings m) (lookup-settings key_name m u ∙ ap filled fresh)

pub rescue_form_lem : (o : RescueActivateOpts) → rescue_form o ≡ settings (rescue_settings o)
unfolding settings rescue_settings lookup bytes_eq
rescue_form_lem o = simp (set_laws) (
    keys-settings o.authorized_keys
      ((codes "keyboard", filled_of o.keyboard)
        ∷ (codes "arch", arch_of o.arch)
        ∷ (codes "os", o.os ∷ [])
        ∷ [])
      (refl, (refl, (refl, tt))) refl)

pub linux_form_lem : (o : LinuxActivateOpts) → linux_form o ≡ settings (linux_settings o)
unfolding settings linux_settings lookup bytes_eq
linux_form_lem o = simp (set_laws) (
    keys-settings o.authorized_keys
      ((codes "arch", arch_of o.arch)
        ∷ (codes "lang", o.lang ∷ [])
        ∷ (codes "dist", o.dist ∷ [])
        ∷ [])
      (refl, (refl, (refl, tt))) refl)

pub vnc_form_lem : (o : VncActivateOpts) → vnc_form o ≡ settings (vnc_settings o)
unfolding settings vnc_settings
vnc_form_lem o = simp (set_laws) refl

pub windows_form_lem :
    (lang os : Bytes)
    → set (codes "os") os (set (codes "lang") lang [])
      ≡ settings ((codes "os", os ∷ []) ∷ (codes "lang", lang ∷ []) ∷ [])
unfolding settings
windows_form_lem lang os = simp (set_laws) refl
