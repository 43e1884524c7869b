-- ===== src/Errors/Laws.antt =====
-- Which predicate holds of which error.
use hrobot_go.Base.{
  ◌≡◌, ◌≢◌, ◌↔◌, ◌⊎◌, inl, inr, refl, ap, subst, ◌||◌, Option-cases, true, false, none, some, arith,
  Bytes, ℤ, bytes_eq, bytes_eq_iff,
}
use mathlib.Core.Option.{some-injective}
use hrobot_go.Errors.{
  Result, ok, fail, ◌>>=◌, ErrorKind, err_kind_api, err_kind_network, err_kind_parse, err_kind_auth,
  err_kind_policy, err_kind_validation, GoError, nil, error, wrapped, other, Error, to_error,
  as_error, same_kind, is_api_error, is_policy_error, is_unauthorized_error, is_not_found_error,
  err_server_not_found, err_ip_not_found, err_unauthorized, new_validation_error,
}

-- A chain that succeeds: its first call gave a value, and the rest succeeded from there.
pub >>=-eq-ok {ℓ κ} :
    {A : Type ℓ} {B : Type κ} (first : Result A) (rest : A → Result B) {b : B}
    → first >>= rest ≡ ok b
    → (a : A) × (first ≡ ok a) × (rest a ≡ ok b)
>>=-eq-ok (fail e) rest h = cc
>>=-eq-ok (ok a) rest h = (a, refl, h)

abbrev value_of {ℓ} : {A : Type ℓ} → A → Result A → A
value_of d (ok a) = a
value_of d (fail e) = d

pub ok-injective {ℓ} : {A : Type ℓ} {a b : A} → ok a ≡ ok b → a ≡ b
ok-injective {a = a} h = ap (value_of a) h

same_kind→eq : (a b : ErrorKind) → same_kind a b ≡ true → a ≡ b
unfolding same_kind
same_kind→eq err_kind_api b h = ground arith
same_kind→eq err_kind_network b h = ground arith
same_kind→eq err_kind_parse b h = ground arith
same_kind→eq err_kind_auth b h = ground arith
same_kind→eq err_kind_policy b h = ground arith
same_kind→eq err_kind_validation b h = ground arith

same_kind_refl : (a : ErrorKind) → same_kind a a ≡ true
unfolding same_kind
same_kind_refl err_kind_api = refl
same_kind_refl _ = refl

pub same_kind_iff : (a b : ErrorKind) → (same_kind a b ≡ true) ↔ (a ≡ b)
same_kind_iff a b = (same_kind→eq a b, λ p. rw p (same_kind_refl b))

-- The library error `e` is the first on the chain of `err`: behind any number of wrappers, and
-- not inside another library error.
pub data Leads : GoError → Error → Type 0 where
  here : (e : Error) → Leads (to_error e) e
  behind : (text : Bytes) {err : GoError} {e : Error} → Leads err e → Leads (wrapped text err) e

as_error_sound : (err : GoError) {e : Error} → as_error err ≡ some e → Leads err e
unfolding as_error
as_error_sound nil h = ground arith
as_error_sound (error k c s m x) {e} h =
    subst (Leads (error k c s m x)) (some-injective _ _ h) (here _)
as_error_sound (wrapped text err) h = behind text (as_error_sound err h)
as_error_sound (other text) h = ground arith

as_error_complete : {err : GoError} {e : Error} → Leads err e → as_error err ≡ some e
unfolding as_error
as_error_complete (here e) = refl
as_error_complete (behind text l) = as_error_complete l

pub as_error_iff : (err : GoError) (e : Error) → (as_error err ≡ some e) ↔ Leads err e
as_error_iff err e = (as_error_sound err, as_error_complete)

is_api_error-some :
    (err : GoError) (e : Error) (code : Bytes)
    → as_error err ≡ some e
    → (is_api_error err code ≡ true) ↔ ((e.kind ≡ err_kind_api) × (e.code ≡ code))
unfolding is_api_error
is_api_error-some err e code h =
    rw h (ground (arith, same_kind_iff e.kind err_kind_api, bytes_eq_iff e.code code))

is_api_error-none :
    (err : GoError) (code : Bytes) → as_error err ≡ none → is_api_error err code ≡ false
unfolding is_api_error
is_api_error-none err code h = rw h

-- `IsAPIError` holds exactly when the first library error on the chain is an API error with the
-- code. An API error inside a network or parse error's cause does not count.
pub is_api_error_iff :
    (err : GoError) (code : Bytes)
    → (is_api_error err code ≡ true)
      ↔ ((e : Error) × Leads err e × (e.kind ≡ err_kind_api) × (e.code ≡ code))
is_api_error_iff err code = (found (Option-cases (as_error err)), holds)
  where
    found :
        (as_error err ≡ none) ⊎ ((e : Error) × (as_error err ≡ some e))
        → is_api_error err code ≡ true
        → (e : Error) × Leads err e × (e.kind ≡ err_kind_api) × (e.code ≡ code)
    found (inl absent) h = absurd (clash (is_api_error-none err code absent) h)
      where
        clash : is_api_error err code ≡ false → is_api_error err code ≡ true → ⊥
        clash p q = cc
    found (inr (e, at)) h = (
      e,
      as_error_sound err at,
      ((is_api_error-some err e code at).0 h).0,
      ((is_api_error-some err e code at).0 h).1,
    )

    holds :
        ((e : Error) × Leads err e × (e.kind ≡ err_kind_api) × (e.code ≡ code))
        → is_api_error err code ≡ true
    holds (e, l, k, c) = (is_api_error-some err e code (as_error_complete l)).1 (k, c)

module _ (err : GoError) (e : Error) (at : as_error err ≡ some e)
    (api : e.kind ≡ err_kind_api) where
  api_policy : is_policy_error err ≡ false
  unfolding is_policy_error
  api_policy = rw at (rw api)

  api_unauthorized : is_unauthorized_error err ≡ bytes_eq e.code err_unauthorized
  unfolding is_unauthorized_error
  api_unauthorized = rw at

  api_not_found :
      is_not_found_error err
      ≡ (bytes_eq e.code err_server_not_found || bytes_eq e.code err_ip_not_found)
  unfolding is_not_found_error
  api_not_found = rw at (rw api)

-- An error that `IsAPIError` recognises with some code is not a policy error; it is an
-- unauthorized error if the code is UNAUTHORIZED, and a not-found error if the code is
-- SERVER_NOT_FOUND or IP_NOT_FOUND, and in no other case.
pub is_api_error-classified :
    (err : GoError) (code : Bytes)
    → is_api_error err code ≡ true
    → (is_policy_error err ≡ false)
      × (is_unauthorized_error err ≡ bytes_eq code err_unauthorized)
      × (is_not_found_error err
          ≡ (bytes_eq code err_server_not_found || bytes_eq code err_ip_not_found))
is_api_error-classified err code h =
    let (e, l, k, c) = (is_api_error_iff err code).0 h in
    let at = as_error_complete l in
    (
      api_policy err e at k,
      rw (← c) (api_unauthorized err e at k),
      rw (← c) (api_not_found err e at k),
    )

pub new_validation_error-ne-nil :
    (code message : Bytes) (status : ℤ) → new_validation_error code message status ≢ nil
unfolding new_validation_error
new_validation_error-ne-nil code message status h = cc
