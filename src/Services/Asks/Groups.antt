-- ===== src/Services/Asks/Groups.antt =====
-- What the operations of the vSwitch service, and those of the firewall service that post no ruleset,
-- are to ask of the service.
pub mod Requests
use hrobot_go.Base.{List, [], ◌∷◌, ◌++◌, Bytes, codes, All, ℤ, itoa_int}
use hrobot_go.Url.Escape.{IsByte}
use hrobot_go.Client.World.{method_get, method_post, method_delete, World}
use hrobot_go.Client.Json.{Decoder}
use hrobot_go.Client.Methods.{Session}
use hrobot_go.Client.Sends.{Ask}
use hrobot_go.Firewall.Service
use hrobot_go.Firewall.Service.{FirewallConfig, FirewallTemplate}
use hrobot_go.Services.Asks.Storage.{ask}
use hrobot_go.Services.Vswitch
use hrobot_go.Services.Vswitch.{Vswitch}
use hrobot_go.Services.Vswitch.Asks.{server_fields}

-- A call of an operation, with its arguments.
pub data Operation : Type 0 where
  list_switches list_templates : Operation
  get_switch get_firewall delete_firewall : ℤ → Operation
  create_switch : Bytes → ℤ → Operation
  update_switch : ℤ → Bytes → ℤ → Operation
  delete_switch : ℤ → Bytes → Operation
  add_servers remove_servers : ℤ → List Bytes → Operation
  get_template delete_template : Bytes → Operation

abbrev switch : ℤ → List Bytes → List Bytes
switch id rest = codes "vswitch" ∷ itoa_int id ∷ rest

abbrev switch_fields : Bytes → ℤ → List (Bytes × Bytes)
switch_fields name vlan = (codes "name", name) ∷ (codes "vlan", itoa_int vlan) ∷ []

-- What it is to ask, as client code would write it down.
abbrev pub asked : Operation → Ask
asked list_switches = ask method_get (codes "vswitch" ∷ []) []
asked (get_switch id) = ask method_get (switch id []) []
asked (create_switch name vlan) = ask method_post (codes "vswitch" ∷ []) (switch_fields name vlan)
asked (update_switch id name vlan) = ask method_post (switch id []) (switch_fields name vlan)
asked (delete_switch id date) =
    ask method_delete (switch id []) ((codes "cancellation_date", date) ∷ [])
asked (add_servers id servers) =
    ask method_post (switch id (codes "server" ∷ [])) (server_fields servers)
asked (remove_servers id servers) =
    ask method_delete (switch id (codes "server" ∷ [])) (server_fields servers)
asked (get_firewall id) = ask method_get (codes "firewall" ∷ itoa_int id ∷ []) []
asked (delete_firewall id) = ask method_delete (codes "firewall" ∷ itoa_int id ∷ []) []
asked list_templates = ask method_get (codes "firewall" ∷ codes "template" ∷ []) []
asked (get_template id) = ask method_get (codes "firewall" ∷ codes "template" ∷ id ∷ []) []
asked (delete_template id) = ask method_delete (codes "firewall" ∷ codes "template" ∷ id ∷ []) []

-- Every text among the arguments is made of bytes.
abbrev pub HasBytes : Operation → Type 0
HasBytes (create_switch name vlan) = All IsByte name
HasBytes (update_switch id name vlan) = All IsByte name
HasBytes (delete_switch id date) = All IsByte date
HasBytes (add_servers id servers) = All (All IsByte) servers
HasBytes (remove_servers id servers) = All (All IsByte) servers
HasBytes (get_template id) = All IsByte id
HasBytes (delete_template id) = All IsByte id
HasBytes _ = Unit

module _ {ℓ} (S : Session) {A : Type ℓ} (DL : Decoder (List A)) (DS : Decoder Vswitch) where
  -- The world after the operation; `DC` reads a configuration, `DT` a template and `DTs` templates.
  unfoldable pub after :
      Decoder FirewallConfig
      → Decoder FirewallTemplate
      → Decoder (List FirewallTemplate)
      → Operation
      → World S.env
      → World S.env
  after DC DT DTs list_switches w = (Vswitch.list S DL w).1
  after DC DT DTs (get_switch id) w = (Vswitch.get S DS id w).1
  after DC DT DTs (create_switch name vlan) w = (Vswitch.create S DS name vlan w).1
  after DC DT DTs (update_switch id name vlan) w = (Vswitch.update S id name vlan w).1
  after DC DT DTs (delete_switch id date) w = (Vswitch.delete S id date w).1
  after DC DT DTs (add_servers id servers) w = (Vswitch.add_servers S id servers w).1
  after DC DT DTs (remove_servers id servers) w = (Vswitch.remove_servers S id servers w).1
  after DC DT DTs (get_firewall id) w = (Service.get S DC id w).1
  after DC DT DTs (delete_firewall id) w = (Service.delete S id w).1
  after DC DT DTs list_templates w = (Service.list_templates S DTs w).1
  after DC DT DTs (get_template id) w = (Service.get_template S DT id w).1
  after DC DT DTs (delete_template id) w = (Service.delete_template S id w).1
