-- ===== src/Tests/Handlers.antt =====
-- A request to the test server.
use hrobot_go.Base.{Bytes, ◌↔◌, ◌≡◌, true, none, some, codes, pos}
use hrobot_go.Errors.{nil, ok}
use hrobot_go.Client.World.{method_post}
use hrobot_go.Firewall.Service.{UpdateConfig, encode_rules, update_extras, firewall_path}
use hrobot_go.Url.Values.{Values}
use hrobot_go.Spectest.Handler.{HttpRequest, Recorded, Spec}
use hrobot_go.Spectest.Load
use hrobot_go.Spectest.Load.{Loader, no_cache}
use hrobot_go.Spectest.Load.Laws.{Loads, load-again}
use hrobot_go.Tests.Operations.{two_rules}

abbrev config : UpdateConfig
config = record {
  status = some (codes "active");
  whitelist_hos = some true;
  filter_ipv6 = none;
  rules = two_rules;
}

abbrev update_request : HttpRequest
update_request = record {
  method = method_post;
  path = firewall_path (pos 1);
  content = encode_rules config.rules (update_extras config);
  read_error = nil;
}

-- A document that has every path and no complaint.
abbrev any_spec : Spec
any_spec = record {
  Route = Unit;
  find_route = λ r. ok tt;
  validate_request = λ route r. nil;
  validate_response = λ route r answer. nil;
}

abbrev answer_ok : HttpRequest → Values → Recorded
answer_ok r header = record { code = 200; header = header; body = codes "{}" }

-- A document is its text, and the router too.
abbrev text_loader : Loader
text_loader = record {
  Outside = Bytes;
  Doc = Bytes;
  Router = Bytes;
  load_from_file = λ path o. ok o;
  validate = λ doc. nil;
  clear_servers = λ doc. doc;
  new_router = λ doc. ok doc;
}

abbrev text_spec : Load.Spec text_loader
text_spec = record { doc = codes "openapi"; router = codes "openapi" }

load-again_example :
    (((Load.load text_loader (codes "robot.yaml") (codes "openapi") (no_cache text_loader)).0
        ≡ (some text_spec, nil))
      ↔ Loads text_loader (codes "robot.yaml") (codes "openapi") text_spec)
    × (Load.load text_loader
          (codes "other.yaml")
          (codes "changed")
          (Load.load text_loader (codes "robot.yaml") (codes "openapi") (no_cache text_loader)).1
        ≡ Load.load text_loader (codes "robot.yaml") (codes "openapi") (no_cache text_loader))
load-again_example =
    load-again text_loader (codes "robot.yaml") (codes "other.yaml") (codes "openapi")
      (codes "changed") (no_cache text_loader) text_spec
