-- ===== src/Services/Asks/Storage.antt =====
-- What the operations of the storage box service are to ask of the service.
pub mod Forms
pub mod Requests
use hrobot_go.Base.{
  List, [], ◌∷◌, ◌++◌, Bytes, codes, All, Bool, Option, none, some, value_or, ℤ, itoa_int,
  format_bool,
}
use hrobot_go.Url.Escape.{IsByte}
use hrobot_go.Url.Settings.{flat}
use hrobot_go.Client.World.{Method, method_get, method_post, method_put, method_delete, World}
use hrobot_go.Client.Json.{Decoder}
use hrobot_go.Client.Methods.{Session}
use hrobot_go.Client.Sends.{Ask}
use hrobot_go.Services.StorageBox
use hrobot_go.Services.StorageBox.{SnapshotPlan, StorageBoxUpdate, SubAccountInput}

-- A call of an operation, with its arguments.
pub data Operation : Type 0 where
  list_boxes : Operation
  get_box list_snapshots create_snapshot get_plan list_accounts : ℤ → Operation
  update_box : ℤ → StorageBoxUpdate → Operation
  reset_password delete_snapshot restore_snapshot delete_account : ℤ → Bytes → Operation
  comment_snapshot reset_account_password : ℤ → Bytes → Bytes → Operation
  set_plan : ℤ → SnapshotPlan → Operation
  create_account : ℤ → SubAccountInput → Operation
  update_account : ℤ → Bytes → SubAccountInput → Operation

-- The values of a field: none where it is not given.
abbrev pub text_of : Option Bytes → List Bytes
text_of none = []
text_of (some v) = v ∷ []

abbrev pub flag_of : Option Bool → List Bytes
flag_of none = []
flag_of (some b) = format_bool b ∷ []

abbrev pub number_of : Option ℤ → List Bytes
number_of none = []
number_of (some n) = itoa_int n ∷ []

abbrev pub filled_of : Bytes → List Bytes
filled_of [] = []
filled_of (c ∷ v) = (c ∷ v) ∷ []

-- The fields in ascending order of their names.
abbrev pub box_fields : StorageBoxUpdate → List (Bytes × Bytes)
box_fields u = flat (
    (codes "external_reachability", flag_of u.external_reachability)
    ∷ (codes "samba", flag_of u.samba)
    ∷ (codes "ssh", flag_of u.ssh)
    ∷ (codes "storagebox_name", text_of u.name)
    ∷ (codes "webdav", flag_of u.webdav)
    ∷ (codes "zfs", flag_of u.zfs)
    ∷ [])

abbrev pub account_fields : SubAccountInput → List (Bytes × Bytes)
account_fields a = flat (
    (codes "comment", text_of a.comment)
    ∷ (codes "external_reachability", flag_of a.external_reachability)
    ∷ (codes "homedirectory", text_of a.home_directory)
    ∷ (codes "password", text_of a.password)
    ∷ (codes "readonly", flag_of a.read_only)
    ∷ (codes "samba", flag_of a.samba)
    ∷ (codes "ssh", flag_of a.ssh)
    ∷ (codes "webdav", flag_of a.webdav)
    ∷ [])

abbrev pub plan_fields : SnapshotPlan → List (Bytes × Bytes)
plan_fields p = flat (
    (codes "day_of_month", number_of p.day_of_month)
    ∷ (codes "day_of_week", number_of p.day_of_week)
    ∷ (codes "hour", number_of p.hour)
    ∷ (codes "max_snapshots", itoa_int p.max_snapshots ∷ [])
    ∷ (codes "minute", number_of p.minute)
    ∷ (codes "month", number_of p.month)
    ∷ (codes "status", p.status ∷ [])
    ∷ [])

abbrev pub password_fields : Bytes → List (Bytes × Bytes)
password_fields password = flat ((codes "password", filled_of password) ∷ [])

abbrev pub box : ℤ → List Bytes → List Bytes
box id rest = codes "storagebox" ∷ itoa_int id ∷ rest

abbrev pub ask : Method → List Bytes → List (Bytes × Bytes) → Ask
ask m segments form = record { method = m; segments = segments; form = form }

-- What it is to ask, as client code would write it down.
abbrev pub asked : Operation → Ask
asked list_boxes = ask method_get (codes "storagebox" ∷ []) []
asked (get_box id) = ask method_get (box id []) []
asked (update_box id u) = ask method_post (box id []) (box_fields u)
asked (reset_password id password) =
    ask method_post (box id (codes "password" ∷ [])) (password_fields password)
asked (list_snapshots id) = ask method_get (box id (codes "snapshot" ∷ [])) []
asked (create_snapshot id) = ask method_post (box id (codes "snapshot" ∷ [])) []
asked (delete_snapshot id name) = ask method_delete (box id (codes "snapshot" ∷ name ∷ [])) []
asked (restore_snapshot id name) =
    ask method_post (box id (codes "snapshot" ∷ name ∷ [])) ((codes "revert", codes "true") ∷ [])
asked (comment_snapshot id name comment) =
    ask method_post (box id (codes "snapshot" ∷ name ∷ codes "comment" ∷ []))
      ((codes "comment", comment) ∷ [])
asked (get_plan id) = ask method_get (box id (codes "snapshotplan" ∷ [])) []
asked (set_plan id p) = ask method_post (box id (codes "snapshotplan" ∷ [])) (plan_fields p)
asked (list_accounts id) = ask method_get (box id (codes "subaccount" ∷ [])) []
asked (create_account id a) = ask method_post (box id (codes "subaccount" ∷ [])) (account_fields a)
asked (update_account id name a) =
    ask method_put (box id (codes "subaccount" ∷ name ∷ [])) (account_fields a)
asked (delete_account id name) = ask method_delete (box id (codes "subaccount" ∷ name ∷ [])) []
asked (reset_account_password id name password) =
    ask method_post (box id (codes "subaccount" ∷ name ∷ codes "password" ∷ []))
      (password_fields password)

abbrev pub IsByteAccount : SubAccountInput → Type 0
IsByteAccount a =
    All IsByte (value_or [] a.home_directory)
    × All IsByte (value_or [] a.comment)
    × All IsByte (value_or [] a.password)

-- Every text among the arguments is made of bytes.
abbrev pub HasBytes : Operation → Type 0
HasBytes (update_box id u) = All IsByte (value_or [] u.name)
HasBytes (reset_password id password) = All IsByte password
HasBytes (delete_snapshot id name) = All IsByte name
HasBytes (restore_snapshot id name) = All IsByte name
HasBytes (comment_snapshot id name comment) = All IsByte name × All IsByte comment
HasBytes (set_plan id p) = All IsByte p.status
HasBytes (create_account id a) = IsByteAccount a
HasBytes (update_account id name a) = All IsByte name × IsByteAccount a
HasBytes (delete_account id name) = All IsByte name
HasBytes (reset_account_password id name password) = All IsByte name × All IsByte password
HasBytes _ = Unit

module _ {ℓ} (S : Session) {A : Type ℓ} (DL : Decoder (List A)) (D : Decoder A) where
  -- The world after the operation; `DP` reads the plans.
  unfoldable pub after : Decoder (List SnapshotPlan) → Operation → World S.env → World S.env
  after DP list_boxes w = (StorageBox.list S DL w).1
  after DP (get_box id) w = (StorageBox.get S D id w).1
  after DP (update_box id u) w = (StorageBox.update S D id u w).1
  after DP (reset_password id password) w = (StorageBox.reset_password S D id password w).1
  after DP (list_snapshots id) w = (StorageBox.list_snapshots S DL id w).1
  after DP (create_snapshot id) w = (StorageBox.create_snapshot S D id w).1
  after DP (delete_snapshot id name) w = (StorageBox.delete_snapshot S id name w).1
  after DP (restore_snapshot id name) w = (StorageBox.restore_snapshot S id name w).1
  after DP (comment_snapshot id name comment) w =
      (StorageBox.set_snapshot_comment S id name comment w).1
  after DP (get_plan id) w = (StorageBox.get_snapshot_plan S DP id w).1
  after DP (set_plan id p) w = (StorageBox.set_snapshot_plan S DP id p w).1
  after DP (list_accounts id) w = (StorageBox.list_sub_accounts S DL id w).1
  after DP (create_account id a) w = (StorageBox.create_sub_account S D id a w).1
  after DP (update_account id name a) w = (StorageBox.update_sub_account S id name a w).1
  after DP (delete_account id name) w = (StorageBox.delete_sub_account S id name w).1
  after DP (reset_account_password id name password) w =
      (StorageBox.reset_sub_account_password S D id name password w).1
