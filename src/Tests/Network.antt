-- ===== src/Tests/Network.antt =====
-- What operations ask of the service, and waiting for it.
use hrobot_go.Base.{true, List, ◌≡◌, ◌↔◌, false, none, some, [], ◌∷◌, codes, pos, arith, All}
use hrobot_go.Errors.{ok}
use hrobot_go.Client.World.{World}
use hrobot_go.Client.Json.{Decoder}
use hrobot_go.Client.Sends.{Asks, New}
use hrobot_go.Firewall.Service
use hrobot_go.Firewall.Service.{firewall_status_active, firewall_status_disabled}
use hrobot_go.Firewall.Service.Asked.{IsByteRule}
use hrobot_go.Firewall.Service.Status.{config_asked, Carries, set_status-asked}
use hrobot_go.Services.Vswitch
use hrobot_go.Services.Vswitch.{Vswitch}
use hrobot_go.Services.Vswitch.Ready.{IsReady}
use hrobot_go.Services.Settled.{IsSettled, Within, wait-IsSettled_iff}
use hrobot_go.Services.Asks.Network.{update_rdns, asked, after}
use hrobot_go.Services.Asks.Network.Requests.{network-asked}
use hrobot_go.Services.StorageBox.{SubAccountInput, SnapshotPlan}
use hrobot_go.Services.Asks.Storage
use hrobot_go.Services.Asks.Storage.{update_account}
use hrobot_go.Services.Asks.Storage.Requests.{storage-asked}
use hrobot_go.Services.Asks.Groups
use hrobot_go.Services.Asks.Groups.{add_servers}
use hrobot_go.Services.Asks.Groups.Requests.{groups-asked}
use hrobot_go.Firewall.Service.{FirewallTemplate}
use hrobot_go.Services.Boot.{RescueActivateOpts}
use hrobot_go.Services.Asks.Hosts
use hrobot_go.Tests.Requests.{test_env, test_session, text_decoder, world_of, answer}
use hrobot_go.Tests.Operations.{template_decoder, two_rules, config_decoder, list_decoder}

-- A failure that is retried, and an answer.
abbrev start : World test_env
start = world_of (answer 500 [] ∷ answer 200 (codes "{}") ∷ [])

network-asked_example :
    New test_session
      (Asks test_session (asked (update_rdns (codes "2a01::/64") (codes "a&b=c"))))
      start
      (after test_session list_decoder text_decoder
        (update_rdns (codes "2a01::/64") (codes "a&b=c"))
        start)
network-asked_example =
    network-asked test_session list_decoder text_decoder
      (update_rdns (codes "2a01::/64") (codes "a&b=c")) start (ground arith, ground arith)

abbrev account : SubAccountInput
account = record {
  home_directory = some (codes "/a&b");
  samba = some true;
  ssh = none;
  external_reachability = some false;
  webdav = none;
  read_only = none;
  comment = none;
  password = none;
}

abbrev plan_decoder : Decoder (List SnapshotPlan)
plan_decoder = record { zero_value = []; unmarshal = λ text. ok [] }

storage-asked_example :
    New test_session
      (Asks test_session (Storage.asked (update_account (pos 7) (codes "u7/sub") account)))
      start
      (Storage.after test_session list_decoder text_decoder plan_decoder
        (update_account (pos 7) (codes "u7/sub") account)
        start)
storage-asked_example =
    storage-asked test_session list_decoder text_decoder plan_decoder
      (update_account (pos 7) (codes "u7/sub") account) start (omega arith, (omega arith, tt, tt))

abbrev rescue_opts : RescueActivateOpts
rescue_opts = record {
  os = codes "linux";
  authorized_keys = codes "15:28:b0" ∷ codes "a&b" ∷ [];
  keyboard = [];
  arch = pos 64;
}

-- Every configuration is read as one with two rules.
abbrev read_config : Decoder Service.FirewallConfig
read_config = record {
  zero_value = config_decoder.zero_value;
  unmarshal = λ text. ok (record config_decoder.zero_value { rules = two_rules });
}

set_status-asked_example :
    New test_session
      (Asks test_session (config_asked (pos 1)))
      start
      (Service.get test_session read_config (pos 1) start).1
    × New test_session
        (Carries test_session read_config
          (pos 1)
          firewall_status_active
          none
          (Service.get test_session read_config (pos 1) start).0)
        (Service.get test_session read_config (pos 1) start).1
        (Service.activate test_session read_config (pos 1) start).1
    × New test_session
        (Carries test_session read_config
          (pos 1)
          firewall_status_active
          (some two_rules)
          (Service.get test_session read_config (pos 1) start).0)
        (Service.get test_session read_config (pos 1) start).1
        (Service.activate_with_rules test_session read_config (pos 1) two_rules start).1
    × New test_session
        (Carries test_session read_config
          (pos 1)
          firewall_status_disabled
          none
          (Service.get test_session read_config (pos 1) start).0)
        (Service.get test_session read_config (pos 1) start).1
        (Service.disable test_session read_config (pos 1) start).1
    × New test_session
        (Carries test_session read_config
          (pos 1)
          firewall_status_disabled
          (some two_rules)
          (Service.get test_session read_config (pos 1) start).0)
        (Service.get test_session read_config (pos 1) start).1
        (Service.disable_with_rules test_session read_config (pos 1) two_rules start).1
unfolding IsByteRule Service.get hrobot_go.Client.Methods.get hrobot_go.Client.Request.do_request
    hrobot_go.Client.Response.handle_response
set_status-asked_example =
    set_status-asked test_session read_config (pos 1) two_rules start (ground arith, tt)
      (ground arith, tt)

abbrev no_vswitch : Vswitch
no_vswitch = record {
  id = pos 1;
  name = [];
  vlan = pos 4000;
  cancelled = false;
  servers = [];
  subnets = [];
  cloud_network = [];
}

abbrev read_vswitch : Decoder Vswitch
read_vswitch = record { zero_value = no_vswitch; unmarshal = λ text. ok no_vswitch }

-- The world after the wait, in which the configuration is read at once.
abbrev ready : World test_env
ready = (Service.get test_session read_config (pos 1) start).1

wait-IsSettled_iff_example :
    ((Service.wait_for_firewall_ready test_session read_config (pos 1) start ≡ (ok tt, ready))
      ↔ Within test_session read_config read_vswitch
          (pos 1)
          (Service.get test_session read_config (pos 1))
          (Service.is_settled test_session read_config (pos 1))
          IsSettled
          start
          ready)
    × ((Vswitch.wait_for_vswitch_ready test_session read_vswitch (pos 1) start ≡ (ok tt, ready))
        ↔ Within test_session read_config read_vswitch
            (pos 1)
            (Vswitch.get test_session read_vswitch (pos 1))
            (Vswitch.is_ready test_session read_vswitch (pos 1))
            (λ v. All IsReady v.servers)
            start
            ready)
wait-IsSettled_iff_example =
    wait-IsSettled_iff test_session read_config read_vswitch (pos 1) start ready

abbrev add_two : Groups.Operation
add_two = add_servers (pos 7) (codes "1.2.3.4" ∷ codes "a&b=c" ∷ [])

abbrev read_templates : Decoder (List FirewallTemplate)
read_templates = record { zero_value = []; unmarshal = λ text. ok [] }

groups-asked_example : New test_session (Asks test_session (Groups.asked add_two)) start (
    Groups.after test_session list_decoder read_vswitch read_config template_decoder read_templates
      add_two start)
groups-asked_example =
    groups-asked test_session list_decoder read_vswitch read_config template_decoder read_templates
      add_two start (omega arith, (omega arith, tt))
