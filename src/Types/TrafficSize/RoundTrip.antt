-- ===== src/Types/TrafficSize/RoundTrip.antt =====
-- Encoding and decoding a traffic quota.
use hrobot_go.Base.{
  ℕ, ◌≡◌, ◌≢◌, refl, ◌∙◌, ap, sym, subst, ◌≤◌, false, [], ◌∷◌, Bytes, codes, itoa, itoa-IsDigit,
  All, IsDigit, arith, inl, inr, ◌⊎◌, bytes_eq, bytes_eq_ne, max_u64, if_lem, parse_uint,
}
use hrobot_go.Errors.{GoError, nil, ok, fail, Result}
use hrobot_go.Types.Scalars.{ScalarJson, Float, IsScalarJson}
use hrobot_go.Types.TrafficSize.{
  TrafficSize, unmarshal, of_json, of_u64, of_string, marshal, marshal_size, by_pattern, match_size,
  or_zero,
}

-- A number of bytes.
abbrev number_size : ℕ → TrafficSize
number_size n = record { unlimited = false; bytes = n; raw = [] }

itoa-ne-null : (n : ℕ) → itoa n ≢ codes "null"
itoa-ne-null n = go (itoa n) (itoa-IsDigit n)
  where
    go : (d : Bytes) → All IsDigit d → d ≢ codes "null"
    go [] h = λ p. cc
    go (c ∷ d) (h, _) = λ p. ground (arith, p)

module _ (J : ScalarJson) (D : Float) where
  -- What decoding leaves is of a string that was decoded, or a number that a uint64 holds.
  IsDecoded : TrafficSize → Type 0
  IsDecoded t =
      ((d : Bytes) × (s : Bytes) × (J.unmarshal_string d ≡ ok s) × (t ≡ of_string J D s))
      ⊎ ((n : ℕ) × (n ≤ max_u64) × (t ≡ number_size n))

  of_u64-IsDecoded :
      (L : IsScalarJson J) (d : Bytes) (r : Result ℕ)
      → J.unmarshal_u64 d ≡ r
      → IsDecoded (of_u64 J D r).1
  unfolding IsDecoded of_u64
  of_u64-IsDecoded L d (ok n) h = inr (n, L.u64_bounded d n h, refl)
  of_u64-IsDecoded L d (fail e) h = inr (0, omega arith, refl)

  of_json-IsDecoded :
      (L : IsScalarJson J) (d : Bytes) (r : Result Bytes)
      → J.unmarshal_string d ≡ r
      → IsDecoded (of_json J D d r).1
  unfolding IsDecoded of_json
  of_json-IsDecoded L d (ok s) h = inl (d, s, h, refl)
  of_json-IsDecoded L d (fail e) h = of_u64-IsDecoded L d (J.unmarshal_u64 d) refl

  unmarshal-IsDecoded :
      (L : IsScalarJson J) (t : TrafficSize) (d : Bytes) → IsDecoded (unmarshal J D t d).1
  unfolding IsDecoded unmarshal
  unmarshal-IsDecoded L t d =
      if_lem (λ (p : GoError × TrafficSize). IsDecoded p.1) (bytes_eq d (codes "null")) _ _
        (λ _. inr (0, omega arith, refl)) (λ _. of_json-IsDecoded L d (J.unmarshal_string d) refl)

  unmarshal-text :
      (t : TrafficSize) (d : Bytes) {r : Result Bytes}
      → d ≢ codes "null"
      → J.unmarshal_string d ≡ r
      → unmarshal J D t d ≡ of_json J D d r
  unfolding unmarshal
  unmarshal-text t d h e = rw (bytes_eq_ne d (codes "null") h, e) refl

  of_json-number :
      (n : ℕ) (r : Result Bytes)
      → ((s : Bytes) → r ≢ ok s)
      → J.unmarshal_u64 (itoa n) ≡ ok n
      → of_json J D (itoa n) r ≡ (nil, number_size n)
  unfolding of_json of_u64
  of_json-number n (ok s) h e = absurd (h s refl)
  of_json-number n (fail x) h e = rw e refl

  number-again :
      (L : IsScalarJson J) (t : TrafficSize) (n : ℕ) (d : Bytes)
      → n ≤ max_u64
      → J.marshal_u64 n ≡ ok d
      → unmarshal J D t d ≡ (nil, number_size n)
  number-again L t n d h e =
      ap (unmarshal J D t) (L.u64_text n d e)
      ∙ unmarshal-text t (itoa n) (itoa-ne-null n) refl
      ∙ of_json-number n (J.unmarshal_string (itoa n)) (L.number_no_string n) (L.u64_again n h)

  raw-of_string : (s : Bytes) → (of_string J D s).raw ≡ s
  unfolding of_string
  raw-of_string s =
      if_lem (λ (t : TrafficSize). t.raw ≡ s) (bytes_eq s (codes "unlimited")) _ _ (λ _. refl)
        (λ _. refl)

  of_string-nil : of_string J D [] ≡ number_size 0
  unfolding of_string by_pattern match_size bytes_eq parse_uint or_zero
  of_string-nil = refl

  string-again :
      (L : IsScalarJson J) (t : TrafficSize) (d0 s d : Bytes)
      → J.unmarshal_string d0 ≡ ok s
      → marshal J D (of_string J D s) ≡ ok d
      → unmarshal J D t d ≡ (nil, of_string J D s)
  unfolding marshal marshal_size of_json
  string-again L t d0 [] d e h =
      number-again L t 0 d (omega arith) (rw of_string-nil at h)
      ∙ ap (λ x. (nil, x)) (sym of_string-nil)
  string-again L t d0 (c ∷ s) d e h =
      let printed : J.marshal_string (c ∷ s) ≡ ok d = rw (raw-of_string (c ∷ s)) at h in
      unmarshal-text t d (L.quoted (c ∷ s) d printed) (L.string_again d0 (c ∷ s) d e printed)

  again :
      (L : IsScalarJson J) (t' t : TrafficSize) (d : Bytes)
      → IsDecoded t
      → marshal J D t ≡ ok d
      → unmarshal J D t' d ≡ (nil, t)
  unfolding IsDecoded marshal marshal_size
  again L t' t d (inl (d0, s, e, p)) h =
      subst (λ x. marshal J D x ≡ ok d → unmarshal J D t' d ≡ (nil, x)) (sym p)
        (string-again L t' d0 s d e) h
  again L t' t d (inr (n, le, p)) h =
      subst (λ x. marshal J D x ≡ ok d → unmarshal J D t' d ≡ (nil, x)) (sym p)
        (number-again L t' n d le) h

  -- A traffic quota that was decoded, from whatever text and over whatever value, is decoded to
  -- itself from its own encoding.
  pub unmarshal-marshal :
      (L : IsScalarJson J) (t0 t1 : TrafficSize) (text text' : Bytes)
      → marshal J D (unmarshal J D t0 text).1 ≡ ok text'
      → unmarshal J D t1 text' ≡ (nil, (unmarshal J D t0 text).1)
  unmarshal-marshal L t0 t1 text text' h =
      again L t1 (unmarshal J D t0 text).1 text' (unmarshal-IsDecoded L t0 text) h
