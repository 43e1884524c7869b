-- ===== src/Errors.antt =====
-- errors.go: the library's error type, its constructors, and the predicates on errors.
pub mod Laws
use hrobot_go.Base.{
  ℕ, Bool, true, false, ◌&&◌, ◌||◌, ◌≡◌, refl, [], ◌∷◌, ◌++◌, Option, none, some, Bytes, codes, ℤ,
  pos, ◌==◌, bytes_eq, if◌then◌else◌,
}

-- `ErrorKind`.
pub data ErrorKind : Type 0 where
  err_kind_api err_kind_network err_kind_parse err_kind_auth err_kind_policy err_kind_validation :
      ErrorKind

-- The string that the constant is.
unfoldable pub kind_text : ErrorKind → Bytes
kind_text err_kind_api = codes "API"
kind_text err_kind_network = codes "Network"
kind_text err_kind_parse = codes "Parse"
kind_text err_kind_auth = codes "Auth"
kind_text err_kind_policy = codes "Policy"
kind_text err_kind_validation = codes "Validation"

-- `==` on kinds compares those strings.
unfoldable pub same_kind : ErrorKind → ErrorKind → Bool
unfolding kind_text bytes_eq
same_kind a b = bytes_eq (kind_text a) (kind_text b)

-- A value of Go's interface `error`: nil, a library `*Error`, an error that wraps another behind
-- a text (`fmt.Errorf("...: %w", err)`), or any other error, by its text.
pub data GoError : Type 0 where
  nil : GoError
  error : ErrorKind → Bytes → ℤ → Bytes → GoError → GoError
  wrapped : Bytes → GoError → GoError
  other : Bytes → GoError

-- The fields of `*Error`.
pub record Error : Type 0 where
  pub kind : ErrorKind
  pub code : Bytes
  pub status : ℤ
  pub message : Bytes
  pub cause : GoError

abbrev pub to_error : Error → GoError
to_error e = error e.kind e.code e.status e.message e.cause

-- `errors.As(err, &e)` for a `*Error`: the first one on the chain of `Unwrap`.
unfoldable pub as_error : GoError → Option Error
as_error nil = none
as_error (error kind code status message cause) =
    some (record { kind = kind; code = code; status = status; message = message; cause = cause })
as_error (wrapped text e) = as_error e
as_error (other text) = none

-- A pair `(value, err)`: the value counts only where the error is nil.
pub data Result {ℓ} (A : Type ℓ) : Type ℓ where
  fail : GoError → Result A
  ok : A → Result A

-- `if err != nil { return err }`, and what follows.
infixl 5 ◌>>=◌
infixl 5 ◌>>◌
abbrev pub ◌>>=◌ {ℓ κ} : {A : Type ℓ} {B : Type κ} → Result A → (A → Result B) → Result B
fail e >>= rest = fail e
ok a >>= rest = rest a

-- `if err := check; err != nil { return err }`.
abbrev pub ◌>>◌ {ℓ κ} : {A : Type ℓ} {B : Type κ} → Result A → Result B → Result B
m >> k = m >>= λ _. k

prefix : ErrorKind → Bytes → Bytes
prefix kind [] = kind_text kind
prefix kind (c ∷ code) = kind_text kind ++ (codes "[" ++ ((c ∷ code) ++ codes "]"))

-- The method `Error()`, and what `%v` prints of other errors (`<nil>` of nil).
unfoldable pub error_text : GoError → Bytes
unfolding prefix kind_text
error_text nil = codes "<nil>"
error_text (error kind code status message nil) = prefix kind code ++ (codes ": " ++ message)
error_text (error kind code status message (error k c s m e)) =
    prefix kind code ++ (codes ": " ++ (message ++ (codes ": " ++ error_text (error k c s m e))))
error_text (error kind code status message (wrapped text e)) =
    prefix kind code ++ (codes ": " ++ (message ++ (codes ": " ++ error_text (wrapped text e))))
error_text (error kind code status message (other text)) =
    prefix kind code ++ (codes ": " ++ (message ++ (codes ": " ++ text)))
error_text (wrapped text e) = text ++ (codes ": " ++ error_text e)
error_text (other text) = text

abbrev pub err_unauthorized : Bytes
err_unauthorized = codes "UNAUTHORIZED"

abbrev pub err_invalid_input : Bytes
err_invalid_input = codes "INVALID_INPUT"

abbrev pub err_server_not_found : Bytes
err_server_not_found = codes "SERVER_NOT_FOUND"

abbrev pub err_ip_not_found : Bytes
err_ip_not_found = codes "IP_NOT_FOUND"

abbrev pub err_rate_limit_exceeded : Bytes
err_rate_limit_exceeded = codes "RATE_LIMIT_EXCEEDED"

abbrev pub err_firewall_in_process : Bytes
err_firewall_in_process = codes "FIREWALL_IN_PROCESS"

abbrev pub err_firewall_rule_limit_exceeded : Bytes
err_firewall_rule_limit_exceeded = codes "FIREWALL_RULE_LIMIT_EXCEEDED"

abbrev pub err_disallowed_by_client_policy : Bytes
err_disallowed_by_client_policy = codes "DISALLOWED_BY_CLIENT_POLICY"

abbrev pub err_unknown : Bytes
err_unknown = codes "UNKNOWN"

unfoldable pub new_api_error : Bytes → Bytes → GoError
new_api_error code message = error err_kind_api code (pos 0) message nil

unfoldable pub new_api_error_with_status : Bytes → Bytes → ℤ → GoError
new_api_error_with_status code message status = error err_kind_api code status message nil

unfoldable pub new_network_error : Bytes → GoError → GoError
new_network_error message cause = error err_kind_network [] (pos 0) message cause

unfoldable pub new_parse_error : Bytes → GoError → GoError
new_parse_error message cause = error err_kind_parse [] (pos 0) message cause

unfoldable pub new_auth_error : Bytes → GoError
new_auth_error message = error err_kind_auth [] (pos 0) message nil

unfoldable pub new_policy_error : Bytes → GoError
new_policy_error operation =
    error err_kind_policy err_disallowed_by_client_policy (pos 451)
      (operation
        ++ codes " is disallowed by client policy; perform this action via the Hetzner Robot UI")
      nil

unfoldable pub new_validation_error : Bytes → Bytes → ℤ → GoError
new_validation_error code message status = error err_kind_validation code status message nil

is_api_fields : Bytes → Option Error → Bool
is_api_fields code none = false
is_api_fields code (some e) = same_kind e.kind err_kind_api && bytes_eq e.code code

has_code : Bytes → Option Error → Bool
has_code code none = false
has_code code (some e) = bytes_eq e.code code

is_policy_fields : Option Error → Bool
is_policy_fields none = false
is_policy_fields (some e) = same_kind e.kind err_kind_policy

unfoldable pub is_api_error : GoError → Bytes → Bool
unfolding is_api_fields same_kind as_error bytes_eq
is_api_error e code = is_api_fields code (as_error e)

unfoldable pub is_rate_limit_error : GoError → Bool
unfolding is_api_error
is_rate_limit_error e = is_api_error e err_rate_limit_exceeded

unfoldable pub is_not_found_error : GoError → Bool
unfolding is_api_error
is_not_found_error e = is_api_error e err_server_not_found || is_api_error e err_ip_not_found

unfoldable pub is_firewall_in_process_error : GoError → Bool
unfolding is_api_error
is_firewall_in_process_error e = is_api_error e err_firewall_in_process

unfoldable pub is_unauthorized_error : GoError → Bool
unfolding has_code as_error bytes_eq
is_unauthorized_error e = has_code err_unauthorized (as_error e)

unfoldable pub is_firewall_rule_limit_exceeded_error : GoError → Bool
unfolding has_code as_error bytes_eq
is_firewall_rule_limit_exceeded_error e = has_code err_firewall_rule_limit_exceeded (as_error e)

unfoldable pub is_invalid_input_error : GoError → Bool
unfolding is_api_error
is_invalid_input_error e = is_api_error e err_invalid_input

unfoldable pub is_policy_error : GoError → Bool
unfolding is_policy_fields same_kind as_error
is_policy_error e = is_policy_fields (as_error e)

policy_text :
    error_text
      (wrapped (codes "x") (new_network_error (codes "request failed") (other (codes "eof"))))
    ≡ codes "x: Network: request failed: eof"
unfolding error_text new_network_error
policy_text = refl
