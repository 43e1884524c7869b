-- ===== src/Client/Data.antt =====
-- client.go, the configuration: `Client`, its options, `NewClient`, and the two local checks.
use hrobot_go.Base.{
  ℕ, suc, ◌*◌, Bool, true, false, not, ◌&&◌, ◌||◌, List, [], ◌∷◌, ◌++◌, Bytes, codes, ℤ, pos,
  bytes_eq, contains_byte, if◌then◌else◌,
}
use hrobot_go.Errors.{
  GoError, nil, new_validation_error, err_invalid_input, err_unauthorized, error_text, Result, ok,
  fail,
}
use hrobot_go.Firewall.Data.{max_firewall_input_rules}

-- Durations are in nanoseconds.
abbrev pub second : ℕ
second = 1000000000

abbrev pub millisecond : ℕ
millisecond = 1000000

abbrev pub default_base_url : Bytes
default_base_url = codes "https://robot-ws.your-server.de"

abbrev pub default_max_retry_after : ℕ
default_max_retry_after = 30 * second

abbrev pub default_max_response_bytes : ℕ
default_max_response_bytes = 33554432

abbrev pub user_agent_default : Bytes
user_agent_default = codes "hrobot-go/2.3.0"

-- `Client`, less the HTTP client and the logger, which the world stands for, and less the rate
-- limit, which is state. The three ceilings are set to positive values only.
pub record Client : Type 0 where
  pub base_url : Bytes
  pub username : Bytes
  pub password : Bytes
  pub user_agent : Bytes
  pub base_url_err : GoError
  pub max_firewall_input : ℕ
  pub max_retry_after : ℕ
  pub max_response_bytes : ℕ

-- The fields of `url.URL` that are looked at.
pub record Url : Type 0 where
  pub scheme : Bytes
  pub host : Bytes
  pub has_user : Bool
  pub raw_query : Bytes
  pub force_query : Bool
  pub fragment : Bytes
  pub raw_fragment : Bytes

unfoldable pub is_empty : Bytes → Bool
is_empty [] = true
is_empty (c ∷ s) = false

unfoldable pub invalid : Bytes → GoError
invalid message = new_validation_error err_invalid_input message (pos 400)

unfoldable pub check_url : Result Url → GoError
check_url (fail e) = invalid (codes "invalid base URL: " ++ error_text e)
check_url (ok u) =
    if not (bytes_eq u.scheme (codes "http")) && not (bytes_eq u.scheme (codes "https"))
    then invalid (codes "invalid base URL: scheme must be http or https")
    else if is_empty u.host
    then invalid (codes "invalid base URL: missing host")
    else if u.has_user
    then invalid (codes "invalid base URL: must not embed credentials; pass them to NewClient")
    else if not (is_empty u.raw_query)
        || u.force_query
        || not (is_empty u.fragment)
        || not (is_empty u.raw_fragment)
    then invalid (codes "invalid base URL: must not contain a query or fragment")
    else nil

-- `strings.TrimSuffix(url, "/")`.
trim_slash : Bytes → Bytes
trim_slash [] = []
trim_slash (c ∷ []) = if bytes_eq (c ∷ []) (codes "/") then [] else c ∷ []
trim_slash (c ∷ d ∷ s) = c ∷ trim_slash (d ∷ s)

abbrev pub ClientOption : Type 0
ClientOption = Client → Client

-- `url.Parse` is not modelled: it is the parameter `parse`.
module _ (parse : Bytes → Result Url) where
  unfoldable pub validate_base_url : Bytes → GoError
  unfolding check_url is_empty invalid bytes_eq
  validate_base_url raw = check_url (parse raw)

  unfoldable pub with_base_url : Bytes → ClientOption
  unfolding trim_slash validate_base_url
  with_base_url url c = record c {
    base_url = trim_slash url;
    base_url_err = validate_base_url (trim_slash url);
  }

  unfoldable pub with_endpoint : Bytes → ClientOption
  unfolding with_base_url
  with_endpoint endpoint = with_base_url endpoint

unfoldable pub with_user_agent : Bytes → ClientOption
with_user_agent ua c = record c { user_agent = ua }

unfoldable pub with_application : Bytes → Bytes → ClientOption
with_application [] version c = c
with_application (n ∷ name) [] c = record c {
  user_agent = (n ∷ name) ++ (codes " " ++ user_agent_default);
}
with_application (n ∷ name) (v ∷ version) c = record c {
  user_agent = (n ∷ name) ++ (codes "/" ++ ((v ∷ version) ++ (codes " " ++ user_agent_default)));
}

-- A ceiling that is not positive is ignored.
unfoldable pub with_max_firewall_input_rules : ℤ → ClientOption
with_max_firewall_input_rules (pos (suc n)) c = record c { max_firewall_input = suc n }
with_max_firewall_input_rules n c = c

unfoldable pub with_max_retry_after : ℤ → ClientOption
with_max_retry_after (pos (suc d)) c = record c { max_retry_after = suc d }
with_max_retry_after d c = c

unfoldable pub with_max_response_bytes : ℤ → ClientOption
with_max_response_bytes (pos (suc n)) c = record c { max_response_bytes = suc n }
with_max_response_bytes n c = c

apply_options : List ClientOption → Client → Client
apply_options [] c = c
apply_options (opt ∷ opts) c = apply_options opts (opt c)

unfoldable pub new_client : Bytes → Bytes → List ClientOption → Client
unfolding apply_options
new_client username password opts = apply_options opts (record {
  base_url = default_base_url;
  username = username;
  password = password;
  user_agent = user_agent_default;
  base_url_err = nil;
  max_firewall_input = max_firewall_input_rules;
  max_retry_after = default_max_retry_after;
  max_response_bytes = default_max_response_bytes;
})

unfoldable pub validate_credentials : Bytes → Bytes → GoError
unfolding is_empty contains_byte
validate_credentials username password =
    if is_empty username || is_empty password
    then new_validation_error err_unauthorized
        (codes "missing credentials: username and password are required") (pos 401)
    else if contains_byte b':' username
    then new_validation_error err_unauthorized
        (codes "invalid username: must not contain a colon (RFC 7617)") (pos 401)
    else nil
