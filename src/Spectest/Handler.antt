-- ===== src/Spectest/Handler.antt =====
-- internal/spectest/spectest.go: `Handler`, which checks each request and each response of a test
-- server. The OpenAPI document, its router and its validation are a parameter, as are the handlers.
pub mod Laws
use hrobot_go.Base.{
  ℕ, Bool, true, false, ◌&&◌, ◌||◌, List, [], ◌∷◌, ◌++◌, Bytes, codes, Option, some, none,
  if◌then◌else◌,
}
use hrobot_go.Errors.{GoError, nil, Result, ok, fail}
use hrobot_go.Url.Values.{Values, add}
use hrobot_go.Client.World.{Method, method_post, method_delete}
use hrobot_go.Spectest.{
  Report, is_traffic_path, is_vswitch_server_path, validate_traffic_form,
  validate_vswitch_server_form,
}
use hrobot_go.Spectest.Keys.{is_firewall_rules_path, validate_firewall_form}

-- The body is read to its end or to an error.
pub record HttpRequest : Type 0 where
  pub method : Method
  pub path : Bytes
  pub content : Bytes
  pub read_error : GoError

pub record Recorded : Type 0 where
  pub code : ℕ
  pub header : Values
  pub body : Bytes

pub record Spec : Type 1 where
  pub Route : Type 0
  -- `router.FindRoute`.
  pub find_route : HttpRequest → Result Route
  -- `openapi3filter.ValidateRequest` and `ValidateResponse`.
  pub validate_request : Route → HttpRequest → GoError
  pub validate_response : Route → HttpRequest → Recorded → GoError

-- What is reported by `t.Errorf` and, `unreadable`, by `t.Fatalf`.
pub data Entry : Type 0 where
  no_route : GoError → Entry
  unreadable : GoError → Entry
  form : Report → Entry
  bad_request : GoError → Entry
  bad_response : GoError → Entry

abbrev pub is_post : Method → Bool
is_post method_post = true
is_post _ = false

abbrev pub is_delete : Method → Bool
is_delete method_delete = true
is_delete _ = false

abbrev pub forms : List Report → List Entry
forms [] = []
forms (r ∷ rs) = form r ∷ forms rs

-- `if err != nil { t.Errorf(...) }`.
abbrev pub unless_nil : (GoError → Entry) → GoError → List Entry
unless_nil entry nil = []
unless_nil entry e = entry e ∷ []

-- The loops that copy the recorded header.
add_values : Bytes → List Bytes → Values → Values
add_values k [] header = header
add_values k (v ∷ vs) header = add_values k vs (add k v header)

copy_header : Values → Values → Values
copy_header [] header = header
copy_header ((k, vs) ∷ recorded) header = copy_header recorded (add_values k vs header)

-- `inner` answers a request, given the header that is set already.
module _ (S : Spec) (inner : HttpRequest → Values → Recorded) where
  unfoldable pub check_request : S.Route → HttpRequest → List Entry
  unfolding is_firewall_rules_path is_vswitch_server_path is_traffic_path validate_firewall_form
      validate_vswitch_server_form validate_traffic_form
  check_request route r =
      if is_firewall_rules_path r.path && is_post r.method
      then forms (validate_firewall_form r.content)
      else if is_vswitch_server_path r.path && (is_post r.method || is_delete r.method)
      then forms (validate_vswitch_server_form r.content)
      else if is_traffic_path r.path && is_post r.method
      then forms (validate_traffic_form r.content)
      else unless_nil bad_request (S.validate_request route r)

  abbrev pub recorded : HttpRequest → Recorded
  recorded r = inner r ((codes "Content-Type", codes "application/json" ∷ []) ∷ [])

  abbrev pub check_response : S.Route → HttpRequest → List Entry
  check_response route r = unless_nil bad_response (S.validate_response route r (recorded r))

  unfoldable pub written : Recorded → Recorded
  unfolding copy_header add_values
  written rec = record rec { header = copy_header rec.header [] }

  behind_body : S.Route → HttpRequest → GoError → List Entry × Option Recorded
  behind_body route r nil =
      (check_request route r ++ check_response route r, some (written (recorded r)))
  behind_body route r e = (unreadable e ∷ [], none)

  behind_route : HttpRequest → Result S.Route → List Entry × Option Recorded
  behind_route r (ok route) = behind_body route r r.read_error
  behind_route r (fail e) = (no_route e ∷ [], some (inner r []))

  -- What is reported, and what is written: nothing behind a `Fatalf`.
  unfoldable pub handle : HttpRequest → List Entry × Option Recorded
  unfolding behind_route behind_body check_request written copy_header add_values
  handle r = behind_route r (S.find_route r)
