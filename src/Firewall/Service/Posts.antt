-- ===== src/Firewall/Service/Posts.antt =====
-- What `Update`, `CreateTemplate` and `UpdateTemplate` of the firewall service ask of the service.
use hrobot_go.Base.{
  ◌≡◌, refl, ◌∙◌, Bool, true, false, List, [], ◌∷◌, ◌++◌, Bytes, codes, All, Option, none, some,
  value_or, insert, lookup, bytes_eq, sort_strings, text_leb, format_bool, join, ℤ, itoa_int, arith,
}
use hrobot_go.Url.Escape.{IsByte, path_escape}
use hrobot_go.Url.Path.{read_path, read_path-join, self-Reads, itoa_int-Reads, path_escape-Reads}
use hrobot_go.Url.Query.{parse_query}
use hrobot_go.UrlEncode.{sorted_keys}
use hrobot_go.UrlEncode.Parse.{IsPlainMap, additional_pairs}
use hrobot_go.Errors.{GoError, nil, error, wrapped, other}
use hrobot_go.Firewall.Data.{FirewallRules}
use hrobot_go.Firewall.Service.{
  FirewallConfig, FirewallTemplate, UpdateConfig, TemplateConfig, validate_input_rule_count,
  validate_rules, update, create_template, update_template, guarded, update_extras, template_extras,
  encode_rules, firewall_path, template_path,
}
use hrobot_go.Firewall.Service.Asked.{IsByteRule, rules_pairs, parse_query-encode_rules}
use hrobot_go.Client.World.{World, method_post}
use hrobot_go.Client.Json.{Decoder}
use hrobot_go.Client.Methods
use hrobot_go.Client.Methods.{Session, Call}
use hrobot_go.Client.Sends.{Ask, Asks, New, perform-New}

-- A ruleset whose fields are strings of bytes.
abbrev pub IsByteRules : FirewallRules → Type 0
IsByteRules rules = All IsByteRule rules.input × All IsByteRule rules.output

-- A field that is left out if there is no value.
abbrev pub optional_field : Bytes → Option Bytes → List (Bytes × Bytes)
optional_field k none = []
optional_field k (some v) = (k, v) ∷ []

abbrev pub optional_bool : Bytes → Option Bool → List (Bytes × Bytes)
optional_bool k none = []
optional_bool k (some b) = (k, format_bool b) ∷ []

-- The settings of an update that are given, in ascending order of their names.
abbrev pub update_fields : UpdateConfig → List (Bytes × Bytes)
update_fields config =
    optional_bool (codes "filter_ipv6") config.filter_ipv6
    ++ (optional_field (codes "status") config.status
        ++ optional_bool (codes "whitelist_hos") config.whitelist_hos)

-- The settings of a template.
abbrev pub template_fields : TemplateConfig → List (Bytes × Bytes)
template_fields config =
    (codes "filter_ipv6", format_bool config.filter_ipv6)
    ∷ (codes "is_default", format_bool config.is_default)
    ∷ (codes "name", config.name)
    ∷ (codes "whitelist_hos", format_bool config.whitelist_hos)
    ∷ []

format_bool-IsByte : (b : Bool) → All IsByte (format_bool b)
format_bool-IsByte true = omega arith
format_bool-IsByte false = omega arith

update_extras_lem :
    (f w : Option Bool) (s : Option Bytes) (rules : FirewallRules)
    → let config : UpdateConfig = record {
      status = s;
      whitelist_hos = w;
      filter_ipv6 = f;
      rules = rules;
    } in
      additional_pairs (update_extras config) (sorted_keys (update_extras config))
      ≡ update_fields config
unfolding update_extras insert sorted_keys sort_strings text_leb lookup bytes_eq
update_extras_lem none none none rules = refl
update_extras_lem none none (some s) rules = refl
update_extras_lem none (some w) none rules = refl
update_extras_lem none (some w) (some s) rules = refl
update_extras_lem (some f) none none rules = refl
update_extras_lem (some f) none (some s) rules = refl
update_extras_lem (some f) (some w) none rules = refl
update_extras_lem (some f) (some w) (some s) rules = refl

update_extras-IsPlain :
    (f w : Option Bool) (s : Option Bytes) (rules : FirewallRules)
    → All IsByte (value_or [] s)
    → let config : UpdateConfig = record {
      status = s;
      whitelist_hos = w;
      filter_ipv6 = f;
      rules = rules;
    } in
      IsPlainMap (update_extras config) (sorted_keys (update_extras config))
unfolding update_extras insert sorted_keys sort_strings text_leb lookup bytes_eq
update_extras-IsPlain none none none rules h = tt
update_extras-IsPlain none none (some s) rules h = (omega arith, h, tt)
update_extras-IsPlain none (some w) none rules h = (omega arith, format_bool-IsByte w, tt)
update_extras-IsPlain none (some w) (some s) rules h =
    (omega arith, h, (omega arith, format_bool-IsByte w, tt))
update_extras-IsPlain (some f) none none rules h = (omega arith, format_bool-IsByte f, tt)
update_extras-IsPlain (some f) none (some s) rules h =
    (omega arith, format_bool-IsByte f, (omega arith, h, tt))
update_extras-IsPlain (some f) (some w) none rules h =
    (omega arith, format_bool-IsByte f, (omega arith, format_bool-IsByte w, tt))
update_extras-IsPlain (some f) (some w) (some s) rules h =
    (omega arith, format_bool-IsByte f, (omega arith, h, (omega arith, format_bool-IsByte w, tt)))

template_extras-IsPlain :
    (config : TemplateConfig)
    → All IsByte config.name
    → IsPlainMap (template_extras config) (sorted_keys (template_extras config))
unfolding template_extras sorted_keys sort_strings text_leb lookup bytes_eq
template_extras-IsPlain config h = (
  omega arith,
  format_bool-IsByte config.filter_ipv6,
  (
    omega arith,
    format_bool-IsByte config.is_default,
    (omega arith, h, (omega arith, format_bool-IsByte config.whitelist_hos, tt)),
  ),
)

pub parse_query-update :
    (config : UpdateConfig)
    → IsByteRules config.rules
    → All IsByte (value_or [] config.status)
    → parse_query (encode_rules config.rules (update_extras config))
      ≡ record { pairs = update_fields config ++ rules_pairs config.rules; failed = false }
parse_query-update config (hi, ho) hs =
    parse_query-encode_rules config.rules (update_extras config) hi ho
      (update_extras-IsPlain config.filter_ipv6 config.whitelist_hos config.status config.rules hs)
    ∙ rw (update_extras_lem config.filter_ipv6 config.whitelist_hos config.status config.rules) refl

pub parse_query-template :
    (config : TemplateConfig)
    → IsByteRules config.rules
    → All IsByte config.name
    → parse_query (encode_rules config.rules (template_extras config))
      ≡ record { pairs = template_fields config ++ rules_pairs config.rules; failed = false }
unfolding template_extras sorted_keys sort_strings text_leb lookup bytes_eq
parse_query-template config (hi, ho) hn =
    parse_query-encode_rules config.rules (template_extras config) hi ho
      (template_extras-IsPlain config hn)

-- The requests of the three operations.
abbrev pub update_asked : ℤ → UpdateConfig → Ask
update_asked server_id config = record {
  method = method_post;
  segments = codes "firewall" ∷ itoa_int server_id ∷ [];
  form = update_fields config ++ rules_pairs config.rules;
}

abbrev pub template_asked : List Bytes → TemplateConfig → Ask
template_asked segments config = record {
  method = method_post;
  segments = codes "firewall" ∷ codes "template" ∷ segments;
  form = template_fields config ++ rules_pairs config.rules;
}

pub firewall_path-Reads :
    (server_id : ℤ)
    → read_path (firewall_path server_id) ≡ some (codes "firewall" ∷ itoa_int server_id ∷ [])
unfolding join
firewall_path-Reads server_id =
    read_path-join (codes "firewall" ∷ itoa_int server_id ∷ [])
      (codes "firewall" ∷ itoa_int server_id ∷ [])
      (self-Reads (codes "firewall") (ground arith), (itoa_int-Reads server_id, tt))

pub templates_path-Reads :
    read_path (codes "/firewall/template") ≡ some (codes "firewall" ∷ codes "template" ∷ [])
unfolding join
templates_path-Reads =
    read_path-join (codes "firewall" ∷ codes "template" ∷ [])
      (codes "firewall" ∷ codes "template" ∷ [])
      (
        self-Reads (codes "firewall") (ground arith),
        (self-Reads (codes "template") (ground arith), tt),
      )

pub template_path-Reads :
    (id : Bytes)
    → All IsByte id
    → read_path (template_path id) ≡ some (codes "firewall" ∷ codes "template" ∷ id ∷ [])
unfolding join
template_path-Reads id h =
    read_path-join (codes "firewall" ∷ codes "template" ∷ path_escape id ∷ [])
      (codes "firewall" ∷ codes "template" ∷ id ∷ [])
      (
        self-Reads (codes "firewall") (ground arith),
        (self-Reads (codes "template") (ground arith), (path_escape-Reads id h, tt)),
      )

module _ (S : Session) (w : World S.env) where
  -- A post behind a check: if the check fails, nothing is sent.
  pub guarded-New :
      {A : Type 0} (D : Decoder A) (e : GoError) (path body : Bytes) (segments : List Bytes)
      (form : List (Bytes × Bytes))
      → read_path path ≡ some segments
      → parse_query body ≡ record { pairs = form; failed = false }
      → New S
          (Asks S (record { method = method_post; segments = segments; form = form }))
          w
          (guarded S e (Methods.post_raw S D path body) w).1
  unfolding Methods.post_raw
  guarded-New D nil path body segments form hp hb =
      perform-New S D method_post path body segments form w hp hb
  guarded-New D (error k m c b e) path body segments form hp hb = ([], refl, tt)
  guarded-New D (wrapped m e) path body segments form hp hb = ([], refl, tt)
  guarded-New D (other m) path body segments form hp hb = ([], refl, tt)

  pub update-New :
      (D : Decoder FirewallConfig) (server_id : ℤ) (config : UpdateConfig)
      → IsByteRules config.rules
      → All IsByte (value_or [] config.status)
      → New S (Asks S (update_asked server_id config)) w (update S D server_id config w).1
  unfolding update
  update-New D server_id config hr hs =
      guarded-New D (validate_rules S D config.rules) (firewall_path server_id) _ _ _
        (firewall_path-Reads server_id) (parse_query-update config hr hs)

  -- From any world, every request of the three operations that post a ruleset asks for exactly the
  -- settings and the rules that they are given: the settings, every input rule and then every output
  -- rule, in their order, each with its action and every other field that is not empty, whatever
  -- bytes they are made of.
  pub rules-asked :
      (D : Decoder FirewallConfig) (DT : Decoder FirewallTemplate) (server_id : ℤ)
      (template_id : Bytes) (config : UpdateConfig) (template : TemplateConfig)
      → IsByteRules config.rules
      → All IsByte (value_or [] config.status)
      → IsByteRules template.rules
      → All IsByte template.name
      → All IsByte template_id
      → New S (Asks S (update_asked server_id config)) w (update S D server_id config w).1
        × New S (Asks S (template_asked [] template)) w (create_template S DT template w).1
        × New S
            (Asks S (template_asked (template_id ∷ []) template))
            w
            (update_template S DT template_id template w).1
  unfolding create_template update_template
  rules-asked D DT server_id template_id config template hr hs ht hn hid = (
    update-New D server_id config hr hs,
    guarded-New DT limit _ _ _ _ templates_path-Reads (parse_query-template template ht hn),
    guarded-New DT limit _ _ _ _ (template_path-Reads template_id hid)
        (parse_query-template template ht hn),
  )
    where
      limit : GoError
      limit = validate_input_rule_count template.rules S.client.max_firewall_input
