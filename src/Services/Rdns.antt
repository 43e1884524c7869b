-- ===== src/Services/Rdns.antt =====
-- rdns.go: `RDNSService`.
use hrobot_go.Base.{List, [], ◌∷◌, ◌++◌, Bytes, codes, some}
use hrobot_go.Url.Escape.{path_escape}
use hrobot_go.Url.Values.{set, encode}
use hrobot_go.Client.Json.{Decoder}
use hrobot_go.Client.Methods
use hrobot_go.Client.Methods.{Session, Call, Done, and_then, return, reject, no_value}

pub record Rdns : Type 0 where
  pub ip : Bytes
  pub ptr : Bytes

abbrev pub rdns_path : Bytes → Bytes
rdns_path ip = codes "/rdns/" ++ path_escape ip

-- The path of `List`, with a query where a server is given.
abbrev pub list_path : Bytes → Bytes
list_path [] = codes "/rdns"
list_path (c ∷ ip) = codes "/rdns" ++ (codes "?" ++ encode (set (codes "server_ip") (c ∷ ip) []))

-- `A` is the type `RDNS`.
module _ {ℓ} (S : Session) {A : Type ℓ} where
  unfoldable pub list : Decoder (List A) → Bytes → Call S (List A)
  list D server_ip = Methods.get S D (list_path server_ip)

  unfoldable pub get : Decoder A → Bytes → Call S A
  get D ip = Methods.get S D (rdns_path ip)

  unfoldable pub create : Decoder A → Bytes → Bytes → Call S A
  create D ip ptr = Methods.put S D (rdns_path ip) (some (set (codes "ptr") ptr []))

  unfoldable pub update : Decoder A → Bytes → Bytes → Call S A
  update D ip ptr = Methods.post S D (rdns_path ip) (some (set (codes "ptr") ptr []))

unfoldable pub delete : (S : Session) → Bytes → Call S Done
delete S ip = Methods.delete S (rdns_path ip)
