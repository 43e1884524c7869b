-- ===== src/Services/Asks/Groups/Requests.antt =====
-- What a server reads from the requests of these vSwitch and firewall operations.
use hrobot_go.Base.{
  ◌≡◌, refl, List, [], ◌∷◌, Bytes, codes, some, ℤ, itoa_int, text_leb, lookup, bytes_eq, arith,
}
use hrobot_go.Url.Path.{read_path, itoa_int-Reads}
use hrobot_go.Url.Values.{Values, set}
use hrobot_go.Url.Settings.{settings, put_all, arrange}
use hrobot_go.Client.World.{method_post, method_delete, World}
use hrobot_go.Client.Wait.{encode_form}
use hrobot_go.Client.Json.{Decoder}
use hrobot_go.Client.Methods
use hrobot_go.Client.Methods.{Session, no_value}
use hrobot_go.Client.Sends.{Asks, New}
use hrobot_go.Firewall.Service
use hrobot_go.Firewall.Service.{FirewallConfig, FirewallTemplate}
use hrobot_go.Firewall.Service.Posts.{
  firewall_path-Reads, template_path-Reads, templates_path-Reads,
}
use hrobot_go.Services.Asks.{
  one-Reads, two-Reads, get-New, field-New, delete-New, settings-New, itoa_int-IsByte,
}
use hrobot_go.Services.Vswitch
use hrobot_go.Services.Vswitch.{Vswitch, vswitch_path, switch_form}
use hrobot_go.Services.Vswitch.Asks.{servers-asked}
use hrobot_go.Services.Asks.Groups.{
  Operation, list_switches, list_templates, get_switch, get_firewall, delete_firewall,
  create_switch, update_switch, delete_switch, add_servers, remove_servers, get_template,
  delete_template, asked, HasBytes, after,
}

switch_settings : Bytes → ℤ → Values
switch_settings name vlan = (codes "vlan", itoa_int vlan ∷ []) ∷ (codes "name", name ∷ []) ∷ []

switch_form_lem :
    (name : Bytes) (vlan : ℤ) → switch_form name vlan ≡ settings (switch_settings name vlan)
unfolding settings put_all set switch_settings
switch_form_lem name vlan = refl

switch-Reads : (id : ℤ) → read_path (vswitch_path id) ≡ some (codes "vswitch" ∷ itoa_int id ∷ [])
switch-Reads id =
    two-Reads (codes "vswitch") (itoa_int id) (itoa_int id) (omega arith) (itoa_int-Reads id)

module _ {ℓ} (S : Session) {A : Type ℓ} (DL : Decoder (List A)) (DS : Decoder Vswitch)
    (DC : Decoder FirewallConfig) (DT : Decoder FirewallTemplate)
    (DTs : Decoder (List FirewallTemplate)) where
  -- From any world, the requests of every operation of the vSwitch service, and of the operations of
  -- the firewall service that read or delete, are read by a server as the operation with its
  -- arguments, whatever bytes they are made of: a field for each server, in their order.
  pub groups-asked :
      (op : Operation) (w : World S.env)
      → HasBytes op
      → New S (Asks S (asked op)) w (after S DL DS DC DT DTs op w)
  unfolding after Vswitch.list Vswitch.get Vswitch.create Vswitch.update Vswitch.delete Service.get
      Service.delete Service.list_templates Service.get_template Service.delete_template
      Methods.post Methods.delete_with_body encode_form arrange text_leb switch_settings lookup
      bytes_eq
  groups-asked list_switches w h = get-New S DL w _ _ (one-Reads (codes "vswitch") (omega arith))
  groups-asked (get_switch id) w h = get-New S DS w _ _ (switch-Reads id)
  groups-asked (create_switch name vlan) w h =
      settings-New S DS w method_post _ _ (switch_settings name vlan)
        (one-Reads (codes "vswitch") (omega arith)) (switch_form_lem name vlan) (refl, (refl, tt))
        ((omega arith, (itoa_int-IsByte vlan, tt)), ((omega arith, (h, tt)), tt))
  groups-asked (update_switch id name vlan) w h =
      settings-New S no_value w method_post _ _ (switch_settings name vlan) (switch-Reads id)
        (switch_form_lem name vlan) (refl, (refl, tt))
        ((omega arith, (itoa_int-IsByte vlan, tt)), ((omega arith, (h, tt)), tt))
  groups-asked (delete_switch id date) w h =
      field-New S no_value w method_delete _ _ (codes "cancellation_date") date (switch-Reads id)
        (omega arith) h
  groups-asked (add_servers id servers) w h = (servers-asked S id servers w h).0
  groups-asked (remove_servers id servers) w h = (servers-asked S id servers w h).1
  groups-asked (get_firewall id) w h = get-New S DC w _ _ (firewall_path-Reads id)
  groups-asked (delete_firewall id) w h = delete-New S w _ _ (firewall_path-Reads id)
  groups-asked list_templates w h = get-New S DTs w _ _ templates_path-Reads
  groups-asked (get_template id) w h = get-New S DT w _ _ (template_path-Reads id h)
  groups-asked (delete_template id) w h = delete-New S w _ _ (template_path-Reads id h)
