-- ===== src/Services/Key/Asks.antt =====
-- What the operations of `KeyService` ask of the service.
use hrobot_go.Base.{◌≡◌, refl, List, [], ◌∷◌, Bytes, codes, All, lookup, text_leb, arith, some}
use hrobot_go.Url.Escape.{path_escape, IsByte}
use hrobot_go.Url.Path.{read_path, path_escape-Reads}
use hrobot_go.Url.Values.{set}
use hrobot_go.Client.World.{method_get, method_post, method_delete, World}
use hrobot_go.Client.Json.{Decoder}
use hrobot_go.Client.Methods
use hrobot_go.Client.Methods.{Session, Call, no_value}
use hrobot_go.Client.Sends.{Ask, Asks, New}
use hrobot_go.Client.Wait.{encode_form}
use hrobot_go.Url.Settings.{settings, put_all, arrange}
use hrobot_go.Services.Asks.{one-Reads, two-Reads, get-New, field-New, delete-New, settings-New}
use hrobot_go.Services.Key
use hrobot_go.Services.Key.{key_path}

-- A call of an operation, with its arguments.
pub data Operation : Type 0 where
  list : Operation
  get : Bytes → Operation
  create : Bytes → Bytes → Operation
  rename : Bytes → Bytes → Operation
  delete : Bytes → Operation

-- What it is to ask: method, path and form, as client code would write them down.
abbrev pub asked : Operation → Ask
asked list = record { method = method_get; segments = codes "key" ∷ []; form = [] }
asked (get fingerprint) = record {
  method = method_get;
  segments = codes "key" ∷ fingerprint ∷ [];
  form = [];
}
asked (create name key_data) = record {
  method = method_post;
  segments = codes "key" ∷ [];
  form = (codes "data", key_data) ∷ (codes "name", name) ∷ [];
}
asked (rename fingerprint new_name) = record {
  method = method_post;
  segments = codes "key" ∷ fingerprint ∷ [];
  form = (codes "name", new_name) ∷ [];
}
asked (delete fingerprint) = record {
  method = method_delete;
  segments = codes "key" ∷ fingerprint ∷ [];
  form = [];
}

abbrev pub HasBytes : Operation → Type 0
HasBytes list = Unit
HasBytes (get fingerprint) = All IsByte fingerprint
HasBytes (create name key_data) = All IsByte name × All IsByte key_data
HasBytes (rename fingerprint new_name) = All IsByte fingerprint × All IsByte new_name
HasBytes (delete fingerprint) = All IsByte fingerprint

module _ {ℓ} (S : Session) {A : Type ℓ} (DL : Decoder (List A)) (D : Decoder A) where
  -- The world after the operation.
  unfoldable pub after : Operation → World S.env → World S.env
  after list w = (Key.list S DL w).1
  after (get fingerprint) w = (Key.get S D fingerprint w).1
  after (create name key_data) w = (Key.create S D name key_data w).1
  after (rename fingerprint new_name) w = (Key.rename S D fingerprint new_name w).1
  after (delete fingerprint) w = (Key.delete S fingerprint w).1

  key-Reads :
      (fingerprint : Bytes)
      → All IsByte fingerprint
      → read_path (key_path fingerprint) ≡ some (codes "key" ∷ fingerprint ∷ [])
  key-Reads fingerprint h =
      two-Reads (codes "key") (path_escape fingerprint) fingerprint (omega arith)
        (path_escape-Reads fingerprint h)

  -- From any world, the requests of every operation are read by a server as the operation with its
  -- arguments: no argument, whatever bytes it is made of, changes the path or adds a field.
  pub after-asked :
      (op : Operation) (w : World S.env) → HasBytes op → New S (Asks S (asked op)) w (after op w)
  unfolding after Key.list Key.get Key.create Key.rename Key.delete Methods.post encode_form
      settings put_all set arrange text_leb lookup
  after-asked list w h = get-New S DL w _ _ (one-Reads (codes "key") (omega arith))
  after-asked (get fingerprint) w h = get-New S D w _ _ (key-Reads fingerprint h)
  after-asked (create name key_data) w (h, k) =
      settings-New S D w method_post _ _
        ((codes "data", key_data ∷ []) ∷ (codes "name", name ∷ []) ∷ [])
        (one-Reads (codes "key") (omega arith)) refl (refl, (refl, tt))
        ((omega arith, (k, tt)), ((omega arith, (h, tt)), tt))
  after-asked (rename fingerprint new_name) w (h, k) =
      field-New S D w method_post _ _ (codes "name") new_name (key-Reads fingerprint h)
        (omega arith) k
  after-asked (delete fingerprint) w h = delete-New S w _ _ (key-Reads fingerprint h)
