-- ===== src/Client/Response/Success.antt =====
-- When `handleResponse` succeeds, and with what; and what it makes of every other response.
use hrobot_go.Base.{
  ℕ, ◌<◌, ◌≤◌, ◌≡◌, ◌⊎◌, ◌↔◌, inl, inr, refl, sym, ap, subst, ◌∙◌, Bool, true, false, ◌||◌, [], ◌∷◌,
  Bytes, codes, ltb, leb, ◌==◌, length, max_int, if_lem, arith,
}
use hrobot_go.Errors.{nil, Result, ok, fail, ◌>>=◌}
use hrobot_go.Errors.Laws.{>>=-eq-ok, ok-injective}
use hrobot_go.Client.World.{Response}
use hrobot_go.Client.Json.{Json, Decoder}
use hrobot_go.Client.Response.{
  read_body_limited, is_empty_text, unwrap_response, handle_response, handle_body, decode_body,
  or_parse_error,
}
use hrobot_go.Client.Response.Laws.{read_body_limited_iff}

or_parse_error_iff {ℓ} :
    (J : Json) {A : Type ℓ} (message : Bytes) (r : Result A) (a : A)
    → (or_parse_error J message r ≡ ok a) ↔ (r ≡ ok a)
or_parse_error_iff J message (ok x) b = (λ h. h, λ h. h)
or_parse_error_iff J message (fail e) b = (λ h. cc, λ h. cc)

no_payload : (status : ℕ) (payload : Bytes) → Bool
no_payload status payload = status == 204 || is_empty_text payload

no_payload_iff :
    (status : ℕ) (payload : Bytes)
    → (no_payload status payload ≡ true) ↔ ((status ≡ 204) ⊎ (payload ≡ []))
unfolding no_payload is_empty_text
no_payload_iff status [] = (λ h. inr refl, λ h. ground arith)
no_payload_iff status (c ∷ s) = (λ h. inl (ground arith), λ h. go h)
  where
    go : (status ≡ 204) ⊎ (c ∷ s ≡ []) → no_payload status (c ∷ s) ≡ true
    go (inl p) = ground arith
    go (inr p) = cc

module _ {ℓ} (J : Json) {A : Type ℓ} (D : Decoder A) where
  -- What a success with a payload gives: nothing to read leaves the zero value; otherwise the
  -- payload without its envelope is decoded.
  abbrev pub Decodes : ℕ → Bytes → A → Type ℓ
  Decodes status payload a =
      (((status ≡ 204) ⊎ (payload ≡ [])) × (a ≡ D.zero_value))
      ⊎ ((¬ ((status ≡ 204) ⊎ (payload ≡ [])))
          × ((text : Bytes) × (unwrap_response J payload ≡ ok text) × (D.unmarshal text ≡ ok a)))

  decode_text_iff :
      (unwrapped : Result Bytes) (m n : Bytes) (a : A)
      → ((or_parse_error J m unwrapped >>= (λ text. or_parse_error J n (D.unmarshal text))) ≡ ok a)
        ↔ ((text : Bytes) × (unwrapped ≡ ok text) × (D.unmarshal text ≡ ok a))
  decode_text_iff (ok text) m n a = (
    λ h. (text, refl, (or_parse_error_iff J n (D.unmarshal text) a).0 h),
    λ (t, p, q).
        (or_parse_error_iff J n (D.unmarshal text) a).1 (ap D.unmarshal (ok-injective p) ∙ q),
  )
  decode_text_iff (fail e) m n a = (λ h. cc, λ h. cc (h.1))

  decode_body_iff :
      (status : ℕ) (payload : Bytes) (a : A)
      → (decode_body J D status payload ≡ ok a) ↔ Decodes status payload a
  unfolding decode_body no_payload
  decode_body_iff status payload a =
      if_lem (λ r. (r ≡ ok a) ↔ Decodes status payload a) (no_payload status payload) _ _
        (λ t. (λ p. inl ((no_payload_iff status payload).0 t, sym (ok-injective p)), empty t))
        (λ f. (
          λ p. inr (λ q. cc ((no_payload_iff status payload).1 q), (decode_text_iff _ _ _ a).0 p),
          full f,
        ))
    where
      empty : no_payload status payload ≡ true → Decodes status payload a → ok D.zero_value ≡ ok a
      empty t (inl (q, p)) = ap ok (sym p)
      empty t (inr (n, p)) = absurd (n ((no_payload_iff status payload).0 t))

      full :
          no_payload status payload ≡ false
          → Decodes status payload a
          → (or_parse_error J (codes "failed to unwrap response") (unwrap_response J payload)
              >>= (λ text.
                  or_parse_error J (codes "failed to unmarshal response") (D.unmarshal text)))
            ≡ ok a
      full f (inl (q, p)) = cc ((no_payload_iff status payload).1 q)
      full f (inr (n, p)) = (decode_text_iff _ _ _ a).1 p

  handle_body_iff :
      (status : ℕ) (payload : Bytes) (a : A)
      → (handle_body J D status payload ≡ ok a)
        ↔ ((200 ≤ status) × (status < 300) × Decodes status payload a)
  unfolding handle_body
  handle_body_iff status payload a =
      if_lem (λ r. (r ≡ ok a) ↔ ((200 ≤ status) × (status < 300) × Decodes status payload a))
        (ltb status 200 || leb 300 status) _ _
        (λ t. (λ p. cc, λ (low, high, d). absurd (ground (arith, t, low, high))))
        (λ f. (
          λ p. (ground (arith, f), ground (arith, f), (decode_body_iff status payload a).0 p),
          λ (low, high, d). (decode_body_iff status payload a).1 d,
        ))

  -- `handleResponse` succeeds exactly on a 2xx status with a body that is read whole, within the
  -- limit: with the zero value on a 204 or an empty body, and otherwise with what the payload
  -- decodes to, its envelope taken off. The limit is at most the largest 64-bit integer, and the
  -- body is shorter than that integer.
  pub handle_response_iff :
      (limit : ℕ) (resp : Response) (a : A)
      → limit ≤ max_int
      → length resp.body.content < max_int
      → (handle_response J D limit resp ≡ ok a) ↔ (
          (200 ≤ resp.status_code)
          × (resp.status_code < 300)
          × (length resp.body.content ≤ limit)
          × (resp.body.read_error ≡ nil)
          × Decodes resp.status_code resp.body.content a)
  unfolding handle_response
  handle_response_iff limit resp a h fits = (
    λ p.
        let (s, r, q) =
          >>=-eq-ok (read_body_limited limit resp.body) (handle_body J D resp.status_code) p in
        let w = (read_body_limited_iff limit resp.body s h fits).0 r in
        let (low, high, d) = (handle_body_iff resp.status_code s a).0 q in
        (low, high, w.1, w.2, subst (λ s. Decodes resp.status_code s a) w.0 d),
    λ (low, high, short, clean, d).
        rw ((read_body_limited_iff limit resp.body resp.body.content h fits).1 (refl, short, clean))
          ((handle_body_iff resp.status_code resp.body.content a).1 (low, high, d)),
  )
