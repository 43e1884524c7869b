-- ===== src/Spectest/Handler/Laws.antt =====
-- The test server reports nothing about the requests with bracketed keys that the services send.
use hrobot_go.Base.{◌≡◌, ◌≢◌, List, [], ◌∷◌, ◌++◌, Bytes, codes, All, value_or, ℤ, Lacks}
use hrobot_go.Url.Escape.{IsByte}
use hrobot_go.Url.Values.{Values}
use hrobot_go.Client.World.{method_post, method_delete}
use hrobot_go.Firewall.Service.{
  UpdateConfig, TemplateConfig, update_extras, template_extras, encode_rules, firewall_path,
}
use hrobot_go.Firewall.Service.Posts.{IsByteRules}
use hrobot_go.Services.Vswitch.{servers_path, servers_form}
use hrobot_go.Services.Traffic.{TrafficGetParams, traffic_body}
use hrobot_go.Services.Traffic.Asks.{HasBytes}
use hrobot_go.Spectest.Handler.{HttpRequest}

-- The requests with bracketed keys that the services send, with the path as a server decodes it. An
-- id of a template with a slash in it makes another path.
pub data Sent (r : HttpRequest) : Type 0 where
  updates :
      (id : ℤ) (config : UpdateConfig)
      → IsByteRules config.rules
      → All IsByte (value_or [] config.status)
      → r.method ≡ method_post
      → r.path ≡ firewall_path id
      → r.content ≡ encode_rules config.rules (update_extras config)
      → Sent r
  creates_template :
      (config : TemplateConfig)
      → IsByteRules config.rules
      → All IsByte config.name
      → r.method ≡ method_post
      → r.path ≡ codes "/firewall/template"
      → r.content ≡ encode_rules config.rules (template_extras config)
      → Sent r
  updates_template :
      (id : Bytes) (config : TemplateConfig)
      → id ≢ []
      → Lacks b'/' id
      → IsByteRules config.rules
      → All IsByte config.name
      → r.method ≡ method_post
      → r.path ≡ codes "/firewall/template/" ++ id
      → r.content ≡ encode_rules config.rules (template_extras config)
      → Sent r
  adds_servers :
      (id : ℤ) (server : Bytes) (servers : List Bytes)
      → All (All IsByte) (server ∷ servers)
      → r.method ≡ method_post
      → r.path ≡ servers_path id
      → r.content ≡ servers_form (server ∷ servers)
      → Sent r
  removes_servers :
      (id : ℤ) (server : Bytes) (servers : List Bytes)
      → All (All IsByte) (server ∷ servers)
      → r.method ≡ method_delete
      → r.path ≡ servers_path id
      → r.content ≡ servers_form (server ∷ servers)
      → Sent r
  gets_traffic :
      (params : TrafficGetParams)
      → HasBytes params
      → r.method ≡ method_post
      → r.path ≡ codes "/traffic"
      → r.content ≡ traffic_body params
      → Sent r
