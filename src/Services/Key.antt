-- ===== src/Services/Key.antt =====
-- key.go: `KeyService`.
pub mod Asks
use hrobot_go.Base.{
  ℕ, zero, suc, ◌≡◌, Bool, true, false, not, ◌&&◌, ◌||◌, List, [], ◌∷◌, ◌++◌, Bytes, codes, Option,
  none, some, ℤ, pos, negsuc, itoa_int, ◌==◌, bytes_eq, if◌then◌else◌, join,
}
use hrobot_go.Url.Escape.{query_escape, path_escape}
use hrobot_go.Url.Values.{Values, set, add, encode}
use hrobot_go.Errors.{
  GoError, nil, other, Result, ok, fail, new_policy_error, new_parse_error, new_api_error,
  err_unknown,
}
use hrobot_go.Client.Json.{Decoder}
use hrobot_go.Client.Wait.{wait_for_condition, encode_form}
use hrobot_go.Client.Methods
use hrobot_go.Client.Methods.{Session, Call, Done, and_then, return, reject, no_value}
use hrobot_go.Types.BerlinTime.{Zone}

pub record SshKey (Z : Zone) : Type 0 where
  pub name : Bytes
  pub fingerprint : Bytes
  pub type : Bytes
  pub size : ℤ
  pub data' : Bytes
  pub created_at : Z.Time

abbrev pub key_path : Bytes → Bytes
key_path fingerprint = codes "/key/" ++ path_escape fingerprint

-- `A` is the type `SSHKey`.
module _ {ℓ} (S : Session) {A : Type ℓ} where
  unfoldable pub list : Decoder (List A) → Call S (List A)
  list D = Methods.get S D (codes "/key")

  unfoldable pub get : Decoder A → Bytes → Call S A
  get D fingerprint = Methods.get S D (key_path fingerprint)

  unfoldable pub create : Decoder A → Bytes → Bytes → Call S A
  create D name key_data =
      Methods.post S D (codes "/key")
        (some (set (codes "data") key_data (set (codes "name") name [])))

  unfoldable pub rename : Decoder A → Bytes → Bytes → Call S A
  rename D fingerprint new_name =
      Methods.post S D (key_path fingerprint) (some (set (codes "name") new_name []))

unfoldable pub delete : (S : Session) → Bytes → Call S Done
delete S fingerprint = Methods.delete S (key_path fingerprint)
