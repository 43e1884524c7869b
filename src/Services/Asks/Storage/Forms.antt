-- ===== src/Services/Asks/Storage/Forms.antt =====
-- The forms of the storage box operations as settings.
use hrobot_go.Base.{
  ◌≡◌, refl, [], ◌∷◌, Bytes, codes, All, Bool, Option, none, some, value_or, ℤ, itoa_int, lookup,
  NodupKeys, bytes_eq, arith,
}
use hrobot_go.Url.Escape.{IsByte}
use hrobot_go.Url.Values.{Values, set}
use hrobot_go.Url.Settings.Laws
use hrobot_go.Url.Settings.{settings, put_all}
use hrobot_go.Services.Asks.{itoa_int-IsByte, format_bool-IsByte}
use hrobot_go.Services.StorageBox.{
  SnapshotPlan, StorageBoxUpdate, SubAccountInput, set_bytes, set_bool, set_int, update_form,
  sub_account_form, plan_form, password_form,
}
use hrobot_go.Services.Asks.Storage.{text_of, flag_of, number_of, filled_of, IsByteAccount}

-- The settings of the forms, the last one set first.
unfoldable pub box_settings : StorageBoxUpdate → Values
box_settings u =
    (codes "zfs", flag_of u.zfs)
    ∷ (codes "external_reachability", flag_of u.external_reachability)
    ∷ (codes "ssh", flag_of u.ssh)
    ∷ (codes "webdav", flag_of u.webdav)
    ∷ (codes "samba", flag_of u.samba)
    ∷ (codes "storagebox_name", text_of u.name)
    ∷ []

unfoldable pub account_settings : SubAccountInput → Values
account_settings a =
    (codes "password", text_of a.password)
    ∷ (codes "comment", text_of a.comment)
    ∷ (codes "readonly", flag_of a.read_only)
    ∷ (codes "webdav", flag_of a.webdav)
    ∷ (codes "external_reachability", flag_of a.external_reachability)
    ∷ (codes "ssh", flag_of a.ssh)
    ∷ (codes "samba", flag_of a.samba)
    ∷ (codes "homedirectory", text_of a.home_directory)
    ∷ []

unfoldable pub plan_settings : SnapshotPlan → Values
plan_settings p =
    (codes "max_snapshots", itoa_int p.max_snapshots ∷ [])
    ∷ (codes "month", number_of p.month)
    ∷ (codes "day_of_month", number_of p.day_of_month)
    ∷ (codes "day_of_week", number_of p.day_of_week)
    ∷ (codes "hour", number_of p.hour)
    ∷ (codes "minute", number_of p.minute)
    ∷ (codes "status", p.status ∷ [])
    ∷ []

set_bytes_lem :
    (k : Bytes) (o : Option Bytes) (m : Values) → set_bytes k o m ≡ put_all k (text_of o) m
unfolding put_all set
set_bytes_lem k none m = refl
set_bytes_lem k (some v) m = refl

set_bool_lem : (k : Bytes) (o : Option Bool) (m : Values) → set_bool k o m ≡ put_all k (flag_of o) m
unfolding put_all set
set_bool_lem k none m = refl
set_bool_lem k (some b) m = refl

set_int_lem : (k : Bytes) (o : Option ℤ) (m : Values) → set_int k o m ≡ put_all k (number_of o) m
unfolding put_all set
set_int_lem k none m = refl
set_int_lem k (some n) m = refl

set_lem : (k v : Bytes) (m : Values) → set k v m ≡ put_all k (v ∷ []) m
unfolding put_all set
set_lem k v m = refl

ruleset set_laws = (set_bytes_lem, set_bool_lem, set_int_lem, set_lem)

pub update_form_lem : (u : StorageBoxUpdate) → update_form u ≡ settings (box_settings u)
unfolding update_form settings box_settings
update_form_lem u = simp (set_laws) refl

pub sub_account_form_lem :
    (a : SubAccountInput) → sub_account_form a ≡ settings (account_settings a)
unfolding sub_account_form settings account_settings
sub_account_form_lem a = simp (set_laws) refl

pub plan_form_lem : (p : SnapshotPlan) → plan_form p ≡ settings (plan_settings p)
unfolding plan_form settings plan_settings
plan_form_lem p = simp (set_laws) refl

pub password_form_lem :
    (p : Bytes) → password_form p ≡ settings ((codes "password", filled_of p) ∷ [])
unfolding settings put_all set
password_form_lem [] = refl
password_form_lem (c ∷ p) = refl

-- No key stands twice, and keys and values are made of bytes.
flag_of-IsByte : (o : Option Bool) → All (All IsByte) (flag_of o)
flag_of-IsByte none = tt
flag_of-IsByte (some b) = (format_bool-IsByte b, tt)

number_of-IsByte : (o : Option ℤ) → All (All IsByte) (number_of o)
number_of-IsByte none = tt
number_of-IsByte (some n) = (itoa_int-IsByte n, tt)

text_of-IsByte : (o : Option Bytes) → All IsByte (value_or [] o) → All (All IsByte) (text_of o)
text_of-IsByte none h = tt
text_of-IsByte (some v) h = (h, tt)

pub filled_of-IsByte : (v : Bytes) → All IsByte v → All (All IsByte) (filled_of v)
filled_of-IsByte [] h = tt
filled_of-IsByte (c ∷ v) h = (h, tt)

pub box_settings-NodupKeys : (u : StorageBoxUpdate) → NodupKeys (box_settings u)
unfolding box_settings lookup bytes_eq
box_settings-NodupKeys u = (refl, (refl, (refl, (refl, (refl, (refl, tt))))))

pub account_settings-NodupKeys : (a : SubAccountInput) → NodupKeys (account_settings a)
unfolding account_settings lookup bytes_eq
account_settings-NodupKeys a = (refl, (refl, (refl, (refl, (refl, (refl, (refl, (refl, tt))))))))

pub plan_settings-NodupKeys : (p : SnapshotPlan) → NodupKeys (plan_settings p)
unfolding plan_settings lookup bytes_eq
plan_settings-NodupKeys p = (refl, (refl, (refl, (refl, (refl, (refl, (refl, tt)))))))

pub box_settings-HasBytes :
    (u : StorageBoxUpdate) → All IsByte (value_or [] u.name) → Laws.HasBytes (box_settings u)
unfolding box_settings
box_settings-HasBytes u h = (
  (omega arith, flag_of-IsByte u.zfs),
  (
    (omega arith, flag_of-IsByte u.external_reachability),
    (
      (omega arith, flag_of-IsByte u.ssh),
      (
        (omega arith, flag_of-IsByte u.webdav),
        ((omega arith, flag_of-IsByte u.samba), ((omega arith, text_of-IsByte u.name h), tt)),
      ),
    ),
  ),
)

pub account_settings-HasBytes :
    (a : SubAccountInput) → IsByteAccount a → Laws.HasBytes (account_settings a)
unfolding account_settings
account_settings-HasBytes a (hd, hc, hp) = (
  (omega arith, text_of-IsByte a.password hp),
  (
    (omega arith, text_of-IsByte a.comment hc),
    (
      (omega arith, flag_of-IsByte a.read_only),
      (
        (omega arith, flag_of-IsByte a.webdav),
        (
          (omega arith, flag_of-IsByte a.external_reachability),
          (
            (omega arith, flag_of-IsByte a.ssh),
            (
              (omega arith, flag_of-IsByte a.samba),
              ((omega arith, text_of-IsByte a.home_directory hd), tt),
            ),
          ),
        ),
      ),
    ),
  ),
)

pub plan_settings-HasBytes :
    (p : SnapshotPlan) → All IsByte p.status → Laws.HasBytes (plan_settings p)
unfolding plan_settings
plan_settings-HasBytes p h = (
  (omega arith, (itoa_int-IsByte p.max_snapshots, tt)),
  (
    (omega arith, number_of-IsByte p.month),
    (
      (omega arith, number_of-IsByte p.day_of_month),
      (
        (omega arith, number_of-IsByte p.day_of_week),
        (
          (omega arith, number_of-IsByte p.hour),
          ((omega arith, number_of-IsByte p.minute), ((omega arith, (h, tt)), tt)),
        ),
      ),
    ),
  ),
)
