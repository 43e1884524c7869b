-- ===== src/Firewall/Service/Status.antt =====
-- What `setStatus` asks: it reads the configuration and posts it with another status.
use hrobot_go.Base.{
  sym, subst, ◌≡◌, refl, none, arith, All-weaken, [], ◌∷◌, Bytes, codes, All, Option, some, ℤ,
  itoa_int, value_or,
}
use hrobot_go.Errors.{Result, ok, fail}
use hrobot_go.Url.Escape.{IsByte}
use hrobot_go.Url.Query.{parse_query}
use hrobot_go.Firewall.Data.{FirewallRules}
use hrobot_go.Firewall.Service.{
  FirewallConfig, UpdateConfig, get, update, set_status, status_config, firewall_path, activate,
  activate_with_rules, disable, disable_with_rules, firewall_status_active,
  firewall_status_disabled,
}
use hrobot_go.Firewall.Service.Posts.{update-New, IsByteRules, update_asked, firewall_path-Reads}
use hrobot_go.Client.World.{World, Request, method_get}
use hrobot_go.Client.Json.{Decoder}
use hrobot_go.Client.Methods
use hrobot_go.Client.Methods.{Session, Call, on_value}
use hrobot_go.Client.Sends.{Ask, Asks, New, perform-New}

abbrev pub config_asked : ℤ → Ask
config_asked server_id = record {
  method = method_get;
  segments = codes "firewall" ∷ itoa_int server_id ∷ [];
  form = [];
}

-- The flags that were read, this status, and the rules that are given or else those that were read.
abbrev pub carried : Bytes → Option FirewallRules → FirewallConfig → UpdateConfig
carried status rules current = record {
  status = some status;
  whitelist_hos = some current.whitelist_hos;
  filter_ipv6 = some current.filter_ipv6;
  rules = value_or current.rules rules;
}

module _ (S : Session) (D : Decoder FirewallConfig) (id : ℤ) where
  status_config_lem :
      (status : Bytes) (rules : Option FirewallRules) (current : FirewallConfig)
      → status_config S D status rules current ≡ carried status rules current
  status_config_lem status none current = refl
  status_config_lem status (some rules) current = refl

  -- A request that posts the configuration that was read, with this status and these rules.
  abbrev pub Carries : Bytes → Option FirewallRules → Result FirewallConfig → Request → Type 0
  Carries status rules answer r =
      (current : FirewallConfig) × (answer ≡ ok current)
      × Asks S (update_asked id (carried status rules current)) r

  -- The rules that would be posted are made of bytes.
  abbrev pub AppliesBytes : Option FirewallRules → Result FirewallConfig → Type 0
  AppliesBytes rules (ok current) = IsByteRules (value_or current.rules rules)
  AppliesBytes rules (fail e) = Unit

  get-New : (w : World S.env) → New S (Asks S (config_asked id)) w (get S D id w).1
  unfolding get Methods.get
  get-New w =
      perform-New S D method_get (firewall_path id) [] _ [] w (firewall_path-Reads id)
        (unfold parse_query in refl)

  on_value-New :
      (status : Bytes) (rules : Option FirewallRules) (p : Result FirewallConfig × World S.env)
      → All IsByte status
      → AppliesBytes rules p.0
      → New S
          (Carries status rules p.0)
          p.1
          (on_value S (λ current. update S D id (status_config S D status rules current)) p).1
  on_value-New status rules (fail e, w) hs h = ([], refl, tt)
  on_value-New status rules (ok current, w) hs h =
      let (xs, e, asks) = update-New S w D id (carried status rules current) h hs in
      subst (λ config. New S (Carries status rules (ok current)) w (update S D id config w).1)
        (sym (status_config_lem status rules current))
        (xs, e, All-weaken _ _ (λ x a. (current, refl, a)) xs asks)

  set_status-New :
      (status : Bytes) (rules : Option FirewallRules) (w : World S.env)
      → All IsByte status
      → AppliesBytes rules (get S D id w).0
      → New S
          (Carries status rules (get S D id w).0)
          (get S D id w).1
          (set_status S D id status rules w).1
  unfolding set_status
  set_status-New status rules w hs h = on_value-New status rules (get S D id w) hs h

  -- Activate, ActivateWithRules, Disable and DisableWithRules, from any world, first ask for nothing
  -- but the configuration. If it is read, every request behind that posts the status of the
  -- operation with the flags that were read, and with the rules that are given or else those that
  -- were read; otherwise there is none.
  pub set_status-asked :
      (rules : FirewallRules) (w : World S.env)
      → AppliesBytes none (get S D id w).0
      → IsByteRules rules
      → New S (Asks S (config_asked id)) w (get S D id w).1
        × New S
            (Carries firewall_status_active none (get S D id w).0)
            (get S D id w).1
            (activate S D id w).1
        × New S
            (Carries firewall_status_active (some rules) (get S D id w).0)
            (get S D id w).1
            (activate_with_rules S D id rules w).1
        × New S
            (Carries firewall_status_disabled none (get S D id w).0)
            (get S D id w).1
            (disable S D id w).1
        × New S
            (Carries firewall_status_disabled (some rules) (get S D id w).0)
            (get S D id w).1
            (disable_with_rules S D id rules w).1
  unfolding activate activate_with_rules disable disable_with_rules
  set_status-asked rules w h hr = (
    get-New w,
    set_status-New firewall_status_active none w (omega arith) h,
    set_status-New firewall_status_active (some rules) w (omega arith) (given (get S D id w).0),
    set_status-New firewall_status_disabled none w (omega arith) h,
    set_status-New firewall_status_disabled (some rules) w (omega arith) (given (get S D id w).0),
  )
    where
      given : (answer : Result FirewallConfig) → AppliesBytes (some rules) answer
      given (ok current) = hr
      given (fail e) = tt
