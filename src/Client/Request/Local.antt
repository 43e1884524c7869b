-- ===== src/Client/Request/Local.antt =====
-- What `doRequest` refuses before anything is sent: credentials that make no header, and a base
-- URL that is no plain http or https URL.
use hrobot_go.Base.{
  ◌≡◌, ◌≢◌, ◌⊎◌, ◌↔◌, inl, inr, refl, sym, subst, Bool, true, false, not, ◌&&◌, ◌||◌, [], ◌∷◌,
  Bytes, codes, Bool-cases, if_lem, bytes_eq, bytes_eq_iff, Lacks, contains_byte,
  contains_byte-Lacks, Lacks-contains_byte, arith,
}
use hrobot_go.Errors.{
  GoError, nil, error, wrapped, other, Result, ok, fail, new_validation_error,
  is_unauthorized_error,
}
use hrobot_go.Errors.Laws.{ok-injective, new_validation_error-ne-nil}
use hrobot_go.Client.Data.{
  Client, Url, validate_credentials, validate_base_url, is_empty, check_url, invalid,
}
use hrobot_go.Client.World.{Method, Env, World}
use hrobot_go.Client.Request.{failed, do_request, do_checked}

-- What Basic authentication can carry.
abbrev pub HasCredentials : Bytes → Bytes → Type 0
HasCredentials username password = (username ≢ []) × (password ≢ []) × Lacks b':' username

-- The credentials pass exactly when both are there and the username has no colon.
pub validate_credentials_iff :
    (username password : Bytes)
    → (validate_credentials username password ≡ nil) ↔ HasCredentials username password
unfolding validate_credentials
validate_credentials_iff [] password =
    (λ h. absurd (new_validation_error-ne-nil _ _ _ h), λ h. absurd (h.0 refl))
validate_credentials_iff (c ∷ u) [] =
    (λ h. absurd (new_validation_error-ne-nil _ _ _ h), λ h. absurd (h.1 refl))
validate_credentials_iff (c ∷ u) (d ∷ p) = go (Bool-cases (contains_byte b':' (c ∷ u)))
  where
    go :
        (contains_byte b':' (c ∷ u) ≡ true) ⊎ (contains_byte b':' (c ∷ u) ≡ false)
        → (validate_credentials (c ∷ u) (d ∷ p) ≡ nil) ↔ HasCredentials (c ∷ u) (d ∷ p)
    go (inl t) = rw t (
      λ h. absurd (new_validation_error-ne-nil _ _ _ h),
      λ h. absurd (ground (arith, t, contains_byte-Lacks b':' (c ∷ u) h.2)),
    )
    go (inr f) = rw f (λ h. (λ p. cc, λ p. cc, Lacks-contains_byte b':' (c ∷ u) f), λ h. refl)

-- A base URL that the client takes: http or https, a host, and nothing but a path besides.
abbrev pub Acceptable : Url → Type 0
Acceptable u =
    ((u.scheme ≡ codes "http") ⊎ (u.scheme ≡ codes "https"))
    × (u.host ≢ [])
    × (u.has_user ≡ false)
    × (u.raw_query ≡ [])
    × (u.force_query ≡ false)
    × (u.fragment ≡ [])
    × (u.raw_fragment ≡ [])

-- The conditions of `validateBaseURL`, as one test.
abbrev acceptable : Url → Bool
acceptable u =
    (bytes_eq u.scheme (codes "http") || bytes_eq u.scheme (codes "https"))
    && (not (is_empty u.host)
        && (not u.has_user
            && (is_empty u.raw_query
                && (not u.force_query && (is_empty u.fragment && is_empty u.raw_fragment)))))

is_empty_iff : (s : Bytes) → (is_empty s ≡ true) ↔ (s ≡ [])
unfolding is_empty
is_empty_iff [] = (λ h. refl, λ h. refl)
is_empty_iff (c ∷ s) = (λ h. ground arith, λ h. cc)

or_iff : (a b : Bool) → (a || b ≡ true) ↔ ((a ≡ true) ⊎ (b ≡ true))
or_iff true b = (λ h. inl refl, λ h. refl)
or_iff false b = (λ h. inr h, λ h. ground arith)

acceptable_iff : (u : Url) → (acceptable u ≡ true) ↔ Acceptable u
acceptable_iff u = ground (
  arith,
  bytes_eq_iff u.scheme (codes "http"),
  bytes_eq_iff u.scheme (codes "https"),
  is_empty_iff u.host,
  is_empty_iff u.raw_query,
  is_empty_iff u.fragment,
  is_empty_iff u.raw_fragment,
)

check_url_iff : (u : Url) → (check_url (ok u) ≡ nil) ↔ (acceptable u ≡ true)
unfolding check_url invalid new_validation_error
check_url_iff u = ground arith

-- A base URL passes exactly when `url.Parse` reads it as an acceptable one.
pub validate_base_url_iff :
    (parse : Bytes → Result Url) (raw : Bytes)
    → (validate_base_url parse raw ≡ nil) ↔ ((u : Url) × (parse raw ≡ ok u) × Acceptable u)
unfolding validate_base_url check_url invalid
validate_base_url_iff parse raw = go (parse raw)
  where
    go : (r : Result Url) → (check_url r ≡ nil) ↔ ((u : Url) × (r ≡ ok u) × Acceptable u)
    go (ok u) = (
      λ h. (u, refl, (acceptable_iff u).0 ((check_url_iff u).0 h)),
      λ h.
          (check_url_iff u).1
            ((acceptable_iff u).1 (subst Acceptable (ok-injective (sym h.1)) h.2)),
    )
    go (fail e) = (λ h. absurd (new_validation_error-ne-nil _ _ _ h), λ h. cc (h.1))

refused_unauthorized :
    (username password : Bytes)
    → (validate_credentials username password ≡ nil)
      ⊎ (is_unauthorized_error (validate_credentials username password) ≡ true)
unfolding validate_credentials is_unauthorized_error new_validation_error
refused_unauthorized [] password = inr refl
refused_unauthorized (c ∷ u) [] = inr refl
refused_unauthorized (c ∷ u) (d ∷ p) =
    if_lem (λ e. (e ≡ nil) ⊎ (is_unauthorized_error e ≡ true)) (contains_byte b':' (c ∷ u)) _ _
      (λ h. inr refl) (λ h. inl refl)

module _ (E : Env) (c : Client) (m : Method) (path body : Bytes) (w : World E) where
  do_checked_credentials :
      (bad bad_url : GoError)
      → bad ≢ nil
      → do_checked E c bad bad_url m path body w ≡ (failed bad, w)
  do_checked_credentials nil bad_url ne = absurd (ne refl)
  do_checked_credentials (error k s n t u) bad_url ne = refl
  do_checked_credentials (wrapped t u) bad_url ne = refl
  do_checked_credentials (other t) bad_url ne = refl

  do_checked_url :
      (bad_url : GoError)
      → bad_url ≢ nil
      → do_checked E c nil bad_url m path body w ≡ (failed bad_url, w)
  do_checked_url nil ne = absurd (ne refl)
  do_checked_url (error k s n t u) ne = refl
  do_checked_url (wrapped t u) ne = refl
  do_checked_url (other t) ne = refl

  -- A call with credentials that make no header fails with an unauthorized error and leaves the
  -- world as it was: nothing is sent, and there is no wait.
  pub do_request-credentials :
      (¬ HasCredentials c.username c.password)
      → (e : GoError) × (do_request E c m path body w ≡ (failed e, w))
        × (is_unauthorized_error e ≡ true)
  unfolding do_request
  do_request-credentials h = elim (refused_unauthorized c.username c.password) [
    | inl p ↦ absurd (h ((validate_credentials_iff c.username c.password).0 p))
    | inr u ↦ (
      validate_credentials c.username c.password,
      do_checked_credentials _ c.base_url_err
          (λ p. h ((validate_credentials_iff c.username c.password).0 p)),
      u,
    )
  ]

  -- A call of a client whose base URL was refused fails with that refusal, and leaves the world as
  -- it was.
  pub do_request-base_url :
      HasCredentials c.username c.password
      → c.base_url_err ≢ nil
      → do_request E c m path body w ≡ (failed c.base_url_err, w)
  unfolding do_request
  do_request-base_url h ne =
      rw ((validate_credentials_iff c.username c.password).1 h) (do_checked_url c.base_url_err ne)
