-- ===== src/Services/StorageBox.antt =====
-- storagebox.go: `StorageBoxService`.
pub mod Resources
use hrobot_go.Base.{
  Bool, List, [], ◌∷◌, ◌++◌, Bytes, codes, format_bool, Option, none, some, ℤ, itoa_int,
}
use hrobot_go.Url.Escape.{path_escape}
use hrobot_go.Url.Values.{Values, set}
use hrobot_go.Errors.{Result, ok, fail, new_api_error, err_unknown}
use hrobot_go.Client.Json.{Decoder}
use hrobot_go.Client.Methods
use hrobot_go.Client.Methods.{Session, Call, Done, and_then, return, reject, no_value}

pub record SnapshotPlan : Type 0 where
  pub status : Bytes
  pub minute : Option ℤ
  pub hour : Option ℤ
  pub day_of_week : Option ℤ
  pub day_of_month : Option ℤ
  pub month : Option ℤ
  pub max_snapshots : ℤ

pub record StorageBoxUpdate : Type 0 where
  pub name : Option Bytes
  pub samba : Option Bool
  pub webdav : Option Bool
  pub ssh : Option Bool
  pub external_reachability : Option Bool
  pub zfs : Option Bool

pub record SubAccountInput : Type 0 where
  pub home_directory : Option Bytes
  pub samba : Option Bool
  pub ssh : Option Bool
  pub external_reachability : Option Bool
  pub webdav : Option Bool
  pub read_only : Option Bool
  pub comment : Option Bytes
  pub password : Option Bytes

-- `if in.F != nil { data.Set(k, ...) }`.
abbrev pub set_bytes : Bytes → Option Bytes → Values → Values
set_bytes k none values = values
set_bytes k (some v) values = set k v values

abbrev pub set_bool : Bytes → Option Bool → Values → Values
set_bool k none values = values
set_bool k (some b) values = set k (format_bool b) values

abbrev pub set_int : Bytes → Option ℤ → Values → Values
set_int k none values = values
set_int k (some n) values = set k (itoa_int n) values

unfoldable pub update_form : StorageBoxUpdate → Values
unfolding set
update_form in' = set_bool (codes "zfs") in'.zfs (
    set_bool (codes "external_reachability") in'.external_reachability (
      set_bool (codes "ssh") in'.ssh (
        set_bool (codes "webdav") in'.webdav
          (set_bool (codes "samba") in'.samba (set_bytes (codes "storagebox_name") in'.name [])))))

unfoldable pub sub_account_form : SubAccountInput → Values
unfolding set
sub_account_form in' = set_bytes (codes "password") in'.password (
    set_bytes (codes "comment") in'.comment (
      set_bool (codes "readonly") in'.read_only (
        set_bool (codes "webdav") in'.webdav (
          set_bool (codes "external_reachability") in'.external_reachability (
            set_bool (codes "ssh") in'.ssh (
              set_bool (codes "samba") in'.samba
                (set_bytes (codes "homedirectory") in'.home_directory [])))))))

unfoldable pub plan_form : SnapshotPlan → Values
unfolding set
plan_form plan = set (codes "max_snapshots") (itoa_int plan.max_snapshots) (
    set_int (codes "month") plan.month (
      set_int (codes "day_of_month") plan.day_of_month (
        set_int (codes "day_of_week") plan.day_of_week (
          set_int (codes "hour") plan.hour
            (set_int (codes "minute") plan.minute (set (codes "status") plan.status []))))))

abbrev pub password_form : Bytes → Values
password_form [] = []
password_form (c ∷ s) = set (codes "password") (c ∷ s) []

abbrev pub box_path : ℤ → Bytes → Bytes
box_path id rest = codes "/storagebox/" ++ (itoa_int id ++ rest)

-- The path of a snapshot or of a sub-account, behind its name.
abbrev pub snapshot_path : ℤ → Bytes → Bytes → Bytes
snapshot_path id name rest = box_path id (codes "/snapshot/" ++ (path_escape name ++ rest))

abbrev pub sub_account_path : ℤ → Bytes → Bytes → Bytes
sub_account_path id username rest =
    box_path id (codes "/subaccount/" ++ (path_escape username ++ rest))

unfoldable pub decode_snapshot_plan_response : Result (List SnapshotPlan) → Result SnapshotPlan
decode_snapshot_plan_response (fail e) = fail e
decode_snapshot_plan_response (ok []) =
    fail (new_api_error err_unknown (codes "empty snapshotplan response"))
decode_snapshot_plan_response (ok (plan ∷ plans)) = ok plan

-- `A` is the type that the operation returns; the two passwords are read by `D` alone.
module _ {ℓ} (S : Session) {A : Type ℓ} where
  unfoldable pub list : Decoder (List A) → Call S (List A)
  list D = Methods.get S D (codes "/storagebox")

  unfoldable pub get : Decoder A → ℤ → Call S A
  get D id = Methods.get S D (codes "/storagebox/" ++ itoa_int id)

  unfoldable pub update : Decoder A → ℤ → StorageBoxUpdate → Call S A
  unfolding update_form
  update D id in' = Methods.post S D (codes "/storagebox/" ++ itoa_int id) (some (update_form in'))

  unfoldable pub reset_password : Decoder A → ℤ → Bytes → Call S A
  reset_password D id new_password =
      Methods.post S D (box_path id (codes "/password")) (some (password_form new_password))

  unfoldable pub list_snapshots : Decoder (List A) → ℤ → Call S (List A)
  list_snapshots D id = Methods.get S D (box_path id (codes "/snapshot"))

  unfoldable pub create_snapshot : Decoder A → ℤ → Call S A
  create_snapshot D id = Methods.post S D (box_path id (codes "/snapshot")) none

  unfoldable pub list_sub_accounts : Decoder (List A) → ℤ → Call S (List A)
  list_sub_accounts D id = Methods.get S D (box_path id (codes "/subaccount"))

  unfoldable pub create_sub_account : Decoder A → ℤ → SubAccountInput → Call S A
  unfolding sub_account_form
  create_sub_account D id in' =
      Methods.post S D (box_path id (codes "/subaccount")) (some (sub_account_form in'))

  unfoldable pub reset_sub_account_password : Decoder A → ℤ → Bytes → Bytes → Call S A
  reset_sub_account_password D id username new_password =
      Methods.post S D (sub_account_path id username (codes "/password"))
        (some (password_form new_password))

module _ (S : Session) where
  unfoldable pub delete_snapshot : ℤ → Bytes → Call S Done
  delete_snapshot id name = Methods.delete S (snapshot_path id name [])

  unfoldable pub restore_snapshot : ℤ → Bytes → Call S Done
  restore_snapshot id name =
      Methods.post S no_value (snapshot_path id name [])
        (some (set (codes "revert") (codes "true") []))

  unfoldable pub set_snapshot_comment : ℤ → Bytes → Bytes → Call S Done
  set_snapshot_comment id name comment =
      Methods.post S no_value (snapshot_path id name (codes "/comment"))
        (some (set (codes "comment") comment []))

  unfoldable pub get_snapshot_plan : Decoder (List SnapshotPlan) → ℤ → Call S SnapshotPlan
  unfolding decode_snapshot_plan_response
  get_snapshot_plan D id w =
      let (plans, w') = Methods.get S D (box_path id (codes "/snapshotplan")) w in
      (decode_snapshot_plan_response plans, w')

  unfoldable pub set_snapshot_plan :
      Decoder (List SnapshotPlan) → ℤ → SnapshotPlan → Call S SnapshotPlan
  unfolding decode_snapshot_plan_response plan_form
  set_snapshot_plan D id plan w =
      let (plans, w') =
        Methods.post S D (box_path id (codes "/snapshotplan")) (some (plan_form plan)) w in
      (decode_snapshot_plan_response plans, w')

  unfoldable pub update_sub_account : ℤ → Bytes → SubAccountInput → Call S Done
  unfolding sub_account_form
  update_sub_account id username in' =
      Methods.put S no_value (sub_account_path id username []) (some (sub_account_form in'))

  unfoldable pub delete_sub_account : ℤ → Bytes → Call S Done
  delete_sub_account id username = Methods.delete S (sub_account_path id username [])
