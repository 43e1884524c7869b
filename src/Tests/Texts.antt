-- ===== src/Tests/Texts.antt =====
-- Errors, ports and firewall forms.
use hrobot_go.Base.{◌≡◌, refl, true, List, [], ◌∷◌, Bytes, codes, All, arith, Map, pos}
use hrobot_go.Errors.{
  GoError, nil, error, wrapped, ok, err_kind_api, is_api_error, err_server_not_found,
}
use hrobot_go.Types.Ports.{PortRange, parse_port_range}
use hrobot_go.Types.Ports.Laws.{IsRange, parse_port_range-IsRange, parse_port_range-body, body}
use hrobot_go.Types.Ports.RoundTrip.{ports_text, parse_port_range-ports_text}
use hrobot_go.UrlEncode.{FirewallRuleEncoder}

abbrev found : GoError
found =
    wrapped (codes "lookup")
      (error err_kind_api err_server_not_found (pos 404) (codes "no server") nil)

found-is_api_error : is_api_error found err_server_not_found ≡ true
unfolding is_api_error
found-is_api_error = refl

abbrev web : List PortRange
web = record { start = 80; end = 80 } ∷ record { start = 443; end = 445 } ∷ []

parse_web : parse_port_range (codes "80, 443-445") ≡ ok web
unfolding parse_port_range
parse_web = refl

parse_port_range-IsRange_example : All IsRange web
parse_port_range-IsRange_example = parse_port_range-IsRange (codes "80, 443-445") web parse_web

parse_port_range-body_example :
    parse_port_range (codes "1-2,3") ≡ body parse_port_range (codes "1-2,3")
parse_port_range-body_example = parse_port_range-body (codes "1-2,3")

parse_port_range-ports_text_example : parse_port_range (ports_text web) ≡ ok web
parse_port_range-ports_text_example =
    parse_port_range-ports_text (record { start = 80; end = 80 })
      (record { start = 443; end = 445 } ∷ [])
      ((ground arith, ground arith), ((ground arith, ground arith), tt))

abbrev extra : Map Bytes
extra = (codes "status", codes "active") ∷ []

abbrev encoder : FirewallRuleEncoder
encoder = record {
  rules =
      (codes "input", ((codes "action", codes "accept") ∷ (codes "name", codes "a&b") ∷ []) ∷ [])
      ∷ [];
}
