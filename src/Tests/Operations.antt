-- ===== src/Tests/Operations.antt =====
-- Operations of the services.
use hrobot_go.Base.{◌≡◌, true, false, none, List, [], ◌∷◌, Bytes, codes, arith, pos}
use hrobot_go.Errors.{nil, ok, fail}
use hrobot_go.Firewall.Data.{FirewallRule, FirewallRules}
use hrobot_go.Firewall.Service.{
  FirewallConfig, FirewallTemplate, UpdateConfig, TemplateConfig, update, create_template,
  update_template,
}
use hrobot_go.Firewall.Service.Laws.{IsLimited, rule_limit-refused}
use hrobot_go.UrlEncode.{sorted_keys}
use hrobot_go.Base.{◌++◌, sort_strings, text_leb, lookup}
use hrobot_go.Url.Query.{parse_query}
use hrobot_go.UrlEncode.Parse.{additional_pairs}
use hrobot_go.Firewall.Service.{encode_rules}
use hrobot_go.Firewall.Service.Asked.{IsByteRule, rules_pairs, parse_query-encode_rules}
use hrobot_go.Firewall.Service.Posts.{update_asked, template_asked, rules-asked}
use hrobot_go.Client.World.{World}
use hrobot_go.Client.Json.{Decoder}
use hrobot_go.Client.Sends.{Asks, New}
use hrobot_go.Services.Key.Asks.{Operation, rename, asked, after, after-asked}
use hrobot_go.Services.Server.{Cancellation}
use hrobot_go.Services.Ip
use hrobot_go.Services.Ip.{NetIp}
use hrobot_go.Services.Boot
use hrobot_go.Services.Boot.{RescueActivateOpts, LinuxActivateOpts, VncActivateOpts}
use hrobot_go.Services.Vswitch.{VswitchServer}
use hrobot_go.Tests.Requests.{test_env, test_session, text_decoder, world_of, answer}

abbrev start : World test_env
start = world_of (answer 500 [] ∷ answer 200 (codes "{}") ∷ [])

abbrev renaming : Operation
renaming = rename (codes "a/b?c") (codes "x&name=y")

abbrev pub list_decoder : Decoder (List Bytes)
list_decoder = record { zero_value = []; unmarshal = λ text. ok [] }

after-asked_example :
    New test_session
      (Asks test_session (asked renaming))
      start
      (after test_session list_decoder text_decoder renaming start)
after-asked_example =
    after-asked test_session list_decoder text_decoder renaming start (ground arith, ground arith)

abbrev cancellation : Cancellation
cancellation = record { server_id = pos 1; cancellation_date = []; cancellation_reason = [] }

abbrev short_ip : NetIp
short_ip = record { text = codes "?0102"; size = 2 }

abbrev rescue : RescueActivateOpts
rescue = record { os = []; authorized_keys = []; keyboard = []; arch = pos 64 }

abbrev linux : LinuxActivateOpts
linux = record { dist = codes "Debian"; lang = []; authorized_keys = []; arch = pos 64 }

abbrev vnc : VncActivateOpts
vnc = record { dist = []; lang = codes "en"; arch = pos 64 }

abbrev any_rule : FirewallRule
any_rule = record {
  name = [];
  ip_version = [];
  action = codes "accept";
  protocol = [];
  source_ip = [];
  dest_ip = [];
  source_port = [];
  dest_port = [];
  tcp_flags = [];
}

abbrev pub two_rules : FirewallRules
two_rules = record { input = any_rule ∷ any_rule ∷ []; output = [] }

abbrev config : UpdateConfig
config = record { status = none; whitelist_hos = none; filter_ipv6 = none; rules = two_rules }

abbrev template : TemplateConfig
template = record {
  name = codes "web";
  filter_ipv6 = false;
  whitelist_hos = true;
  is_default = false;
  rules = two_rules;
}

abbrev pub config_decoder : Decoder FirewallConfig
config_decoder = record {
  zero_value = record {
    server_ip = [];
    server_number = pos 0;
    status = [];
    filter_ipv6 = false;
    whitelist_hos = false;
    port = [];
    rules = record { input = []; output = [] };
  };
  unmarshal = λ text. fail nil;
}

abbrev pub template_decoder : Decoder FirewallTemplate
template_decoder = record {
  zero_value = record {
    id = pos 0;
    name = [];
    filter_ipv6 = false;
    whitelist_hos = false;
    is_default = false;
    rules = record { input = []; output = [] };
  };
  unmarshal = λ text. fail nil;
}

rule_limit-refused_example :
    IsLimited test_session (update test_session config_decoder (pos 1) config) start
    × IsLimited test_session (create_template test_session template_decoder template) start
    × IsLimited test_session
        (update_template test_session template_decoder (codes "1") template)
        start
rule_limit-refused_example =
    rule_limit-refused test_session config_decoder template_decoder (pos 1) (codes "1") config
      template start (ground arith) (ground arith)

abbrev ready_server : VswitchServer
ready_server = record {
  server_ip = [];
  server_ipv6_net = [];
  server_number = pos 1;
  status = codes "ready";
}

parse_query-encode_rules_example :
    parse_query (encode_rules two_rules ((codes "status", codes "active") ∷ [])) ≡ record {
      pairs =
          additional_pairs
            ((codes "status", codes "active") ∷ [])
            (sorted_keys ((codes "status", codes "active") ∷ []))
          ++ rules_pairs two_rules;
      failed = false;
    }
unfolding IsByteRule sorted_keys sort_strings text_leb lookup
parse_query-encode_rules_example =
    parse_query-encode_rules two_rules ((codes "status", codes "active") ∷ []) (omega arith)
      (omega arith) (ground arith)

rules-asked_example :
    New test_session
      (Asks test_session (update_asked (pos 1) config))
      start
      (update test_session config_decoder (pos 1) config start).1
    × New test_session
        (Asks test_session (template_asked [] template))
        start
        (create_template test_session template_decoder template start).1
    × New test_session
        (Asks test_session (template_asked (codes "a/b" ∷ []) template))
        start
        (update_template test_session template_decoder (codes "a/b") template start).1
unfolding IsByteRule
rules-asked_example =
    rules-asked test_session start config_decoder template_decoder (pos 1) (codes "a/b") config
      template (ground arith) (ground arith) (ground arith) (ground arith) (ground arith)
