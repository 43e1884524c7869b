-- ===== src/Services/Asks/Storage/Requests.antt =====
-- What a server reads from the requests of the storage box operations.
use hrobot_go.Base.{
  ◌≡◌, refl, List, [], ◌∷◌, ◌++◌, append-nil, Bytes, codes, All, some, ℤ, itoa_int, lookup,
  text_leb, arith,
}
use hrobot_go.Url.Escape.{IsByte, path_escape}
use hrobot_go.Url.Path.{read_path, IsSelf, path_escape-Reads, itoa_int-Reads}
use hrobot_go.Url.Values.{encode}
use hrobot_go.Url.Query.{parse_query}
use hrobot_go.Url.Settings.{arrange}
use hrobot_go.Client.World.{method_post, method_put, World}
use hrobot_go.Client.Wait.{encode_form}
use hrobot_go.Client.Json.{Decoder}
use hrobot_go.Client.Methods
use hrobot_go.Client.Methods.{Session, no_value}
use hrobot_go.Client.Sends.{Asks, New, perform-New}
use hrobot_go.Services.Asks.{
  one-Reads, two-Reads, three-Reads, four-Reads, five-Reads, get-New, field-New, delete-New,
  settings-New,
}
use hrobot_go.Services.StorageBox
use hrobot_go.Services.StorageBox.{
  SnapshotPlan, StorageBoxUpdate, SubAccountInput, set_bytes, set_bool, set_int, update_form,
  sub_account_form, plan_form, password_form, box_path, snapshot_path, sub_account_path,
}
use hrobot_go.Services.Asks.Storage.{
  Operation, list_boxes, get_box, update_box, reset_password, list_snapshots, create_snapshot,
  delete_snapshot, restore_snapshot, comment_snapshot, get_plan, set_plan, list_accounts,
  create_account, update_account, delete_account, reset_account_password, filled_of,
  password_fields, ask, asked, HasBytes, after,
}
use hrobot_go.Services.Asks.Storage.Forms.{
  box_settings, account_settings, plan_settings, update_form_lem, sub_account_form_lem,
  plan_form_lem, password_form_lem, box_settings-NodupKeys, account_settings-NodupKeys,
  plan_settings-NodupKeys, box_settings-HasBytes, account_settings-HasBytes, plan_settings-HasBytes,
  filled_of-IsByte,
}

-- The paths of a box, of a part of it, of a thing in that part, and of a part of that thing.
abbrev word : Bytes
word = codes "storagebox"

box-Reads :
    (id : ℤ) → read_path (codes "/storagebox/" ++ itoa_int id) ≡ some (word ∷ itoa_int id ∷ [])
box-Reads id = two-Reads word (itoa_int id) (itoa_int id) (omega arith) (itoa_int-Reads id)

part-Reads :
    (id : ℤ) (part : Bytes)
    → All IsSelf part
    → read_path (box_path id (b'/' ∷ part)) ≡ some (word ∷ itoa_int id ∷ part ∷ [])
part-Reads id part h =
    three-Reads word (itoa_int id) (itoa_int id) part (omega arith) (itoa_int-Reads id) h

thing-Reads :
    (id : ℤ) (part name : Bytes)
    → All IsSelf part
    → All IsByte name
    → read_path (box_path id (b'/' ∷ (part ++ (b'/' ∷ (path_escape name ++ [])))))
      ≡ some (word ∷ itoa_int id ∷ part ∷ name ∷ [])
thing-Reads id part name h k = rw append-nil (
    four-Reads word (itoa_int id) (itoa_int id) part (path_escape name) name (omega arith)
      (itoa_int-Reads id) h (path_escape-Reads name k))

leaf-Reads :
    (id : ℤ) (part name leaf : Bytes)
    → All IsSelf part
    → All IsByte name
    → All IsSelf leaf
    → read_path (box_path id (b'/' ∷ (part ++ (b'/' ∷ (path_escape name ++ (b'/' ∷ leaf))))))
      ≡ some (word ∷ itoa_int id ∷ part ∷ name ∷ leaf ∷ [])
leaf-Reads id part name leaf h k l =
    five-Reads word (itoa_int id) (itoa_int id) part (path_escape name) name leaf (omega arith)
      (itoa_int-Reads id) h (path_escape-Reads name k) l

password-New {ℓ} :
    (S : Session) {A : Type ℓ} (D : Decoder A) (w : World S.env) (path : Bytes)
    (segments : List Bytes) (password : Bytes)
    → read_path path ≡ some segments
    → All IsByte password
    → New S
        (Asks S (ask method_post segments (password_fields password)))
        w
        (Methods.perform S D method_post path (encode (password_form password)) w).1
unfolding arrange lookup
password-New S D w path segments password hp h =
    settings-New S D w method_post path segments ((codes "password", filled_of password) ∷ []) hp
      (password_form_lem password) (refl, tt) ((omega arith, filled_of-IsByte password h), tt)

module _ {ℓ} (S : Session) {A : Type ℓ} (DL : Decoder (List A)) (D : Decoder A)
    (DP : Decoder (List SnapshotPlan)) where
  -- From any world, the requests of every operation of the storage box service are read by a server
  -- as the operation with its arguments: exactly the fields that are given, in ascending order, and
  -- no argument, whatever bytes it is made of, changes the path or adds a field.
  pub storage-asked :
      (op : Operation) (w : World S.env)
      → HasBytes op
      → New S (Asks S (asked op)) w (after S DL D DP op w)
  unfolding after StorageBox.list StorageBox.get StorageBox.update StorageBox.reset_password
      StorageBox.list_snapshots StorageBox.create_snapshot StorageBox.delete_snapshot
      StorageBox.restore_snapshot StorageBox.set_snapshot_comment StorageBox.get_snapshot_plan
      StorageBox.set_snapshot_plan StorageBox.list_sub_accounts StorageBox.create_sub_account
      StorageBox.update_sub_account StorageBox.delete_sub_account
      StorageBox.reset_sub_account_password Methods.post Methods.put encode_form arrange text_leb
      box_settings account_settings plan_settings
  storage-asked list_boxes w h = get-New S DL w _ _ (one-Reads word (omega arith))
  storage-asked (get_box id) w h = get-New S D w _ _ (box-Reads id)
  storage-asked (update_box id u) w h =
      settings-New S D w method_post _ _ (box_settings u) (box-Reads id) (update_form_lem u)
        (box_settings-NodupKeys u) (box_settings-HasBytes u h)
  storage-asked (reset_password id password) w h =
      password-New S D w _ _ password (part-Reads id (codes "password") (omega arith)) h
  storage-asked (list_snapshots id) w h =
      get-New S DL w _ _ (part-Reads id (codes "snapshot") (omega arith))
  storage-asked (create_snapshot id) w h =
      perform-New S D method_post _ [] _ [] w (part-Reads id (codes "snapshot") (omega arith))
        (unfold parse_query in refl)
  storage-asked (delete_snapshot id name) w h =
      delete-New S w _ _ (thing-Reads id (codes "snapshot") name (omega arith) h)
  storage-asked (restore_snapshot id name) w h =
      field-New S no_value w method_post _ _ (codes "revert") (codes "true")
        (thing-Reads id (codes "snapshot") name (omega arith) h) (omega arith) (omega arith)
  storage-asked (comment_snapshot id name comment) w (h, k) =
      field-New S no_value w method_post _ _ (codes "comment") comment
        (leaf-Reads id (codes "snapshot") name (codes "comment") (omega arith) h (omega arith))
        (omega arith) k
  storage-asked (get_plan id) w h =
      get-New S DP w _ _ (part-Reads id (codes "snapshotplan") (omega arith))
  storage-asked (set_plan id p) w h =
      settings-New S DP w method_post _ _ (plan_settings p)
        (part-Reads id (codes "snapshotplan") (omega arith)) (plan_form_lem p)
        (plan_settings-NodupKeys p) (plan_settings-HasBytes p h)
  storage-asked (list_accounts id) w h =
      get-New S DL w _ _ (part-Reads id (codes "subaccount") (omega arith))
  storage-asked (create_account id a) w h =
      settings-New S D w method_post _ _ (account_settings a)
        (part-Reads id (codes "subaccount") (omega arith)) (sub_account_form_lem a)
        (account_settings-NodupKeys a) (account_settings-HasBytes a h)
  storage-asked (update_account id name a) w (h, k) =
      settings-New S no_value w method_put _ _ (account_settings a)
        (thing-Reads id (codes "subaccount") name (omega arith) h) (sub_account_form_lem a)
        (account_settings-NodupKeys a) (account_settings-HasBytes a k)
  storage-asked (delete_account id name) w h =
      delete-New S w _ _ (thing-Reads id (codes "subaccount") name (omega arith) h)
  storage-asked (reset_account_password id name password) w (h, k) =
      password-New S D w _ _ password
        (leaf-Reads id (codes "subaccount") name (codes "password") (omega arith) h (omega arith)) k
