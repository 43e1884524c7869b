-- ===== src/Client/Retry/Laws.antt =====
-- `retryAfter` stays under its ceiling, and takes a number of seconds of any size exactly.
use hrobot_go.Base.{
  ℕ, ◌*◌, ◌<◌, ◌≤◌, ◌≡◌, ◌≢◌, ◌⊎◌, inl, inr, refl, ap, ◌∙◌, true, false, [], ◌∷◌, Bytes, codes,
  arith, ℤ, pos, negsuc, atoi, atoi-itoa, atoi-itoa_above, itoa, itoa-ne-nil, itoa-IsDigit, IsDigit,
  All, Num, value, err_syntax, err_range, has_prefix, Option, min, max_int,
}
use hrobot_go.Client.Data.{second}
use hrobot_go.Client.World.{
  Method, method_get, method_post, method_put, method_delete, Response, Reply, responded,
  transport_error,
}
use hrobot_go.Client.Retry.{clamp, until, by_number, retry_after, is_post, should_retry}

-- After this reply the request may be sent again: the service did not execute it (401, 429), or
-- the method is not POST and the service failed or was not reached.
abbrev pub MayRepeat : Method → Reply → Type 0
MayRepeat m (transport_error e) = is_post m ≡ false
MayRepeat m (responded r) =
    (r.status_code ≡ 401) ⊎ ((r.status_code ≡ 429) ⊎ ((500 ≤ r.status_code) × (is_post m ≡ false)))

pub should_retry-MayRepeat :
    (m : Method) (r : Response) (attempt : ℕ)
    → should_retry m r.status_code attempt ≡ true
    → MayRepeat m (responded r)
unfolding should_retry
should_retry-MayRepeat method_get r attempt h = ground arith
should_retry-MayRepeat method_post r attempt h = ground arith
should_retry-MayRepeat method_put r attempt h = ground arith
should_retry-MayRepeat method_delete r attempt h = ground arith

clamp_le : (d : ℤ) (limit : ℕ) → clamp d limit ≤ limit
unfolding clamp
clamp_le (pos d) limit = omega arith
clamp_le (negsuc d) limit = omega arith

module _ (parse_time : Bytes → Option ℤ) (now : ℤ) where
  by_number_le : (v : Bytes) (x : Num ℤ) (limit : ℕ) → by_number parse_time now v x limit ≤ limit
  unfolding by_number
  by_number_le v (value (pos n)) limit = ground (arith, clamp_le (pos (n * second)) limit)
  by_number_le v (value (negsuc n)) limit = clamp_le (until now (parse_time v)) limit
  by_number_le v err_range limit = ground (arith, clamp_le (until now (parse_time v)) limit)
  by_number_le v err_syntax limit = clamp_le (until now (parse_time v)) limit

  -- Whatever the header says, the delay is at most the ceiling.
  pub retry_after-le : (v : Bytes) (limit : ℕ) → retry_after parse_time now v limit ≤ limit
  unfolding retry_after
  retry_after-le [] limit = omega arith
  retry_after-le (c ∷ v) limit = by_number_le (c ∷ v) (atoi (c ∷ v)) limit

  by_number_exact :
      (v : Bytes) (n limit : ℕ)
      → by_number parse_time now v (value (pos n)) limit ≡ min (n * second) limit
  unfolding by_number clamp
  by_number_exact v n limit = ground arith

  no_minus : (s : Bytes) → s ≢ [] → All IsDigit s → has_prefix s (codes "-") ≡ false
  unfolding has_prefix
  no_minus [] h d = absurd (h refl)
  no_minus (c ∷ s) h d = ground arith

  by_range_error :
      (v : Bytes) (limit : ℕ)
      → has_prefix v (codes "-") ≡ false
      → by_number parse_time now v err_range limit ≡ limit
  unfolding by_number
  by_range_error v limit h = rw h

  retry_after-by_number :
      (v : Bytes) (limit : ℕ)
      → v ≢ []
      → retry_after parse_time now v limit ≡ by_number parse_time now v (atoi v) limit
  unfolding retry_after
  retry_after-by_number [] limit h = absurd (h refl)
  retry_after-by_number (c ∷ v) limit h = refl

  -- A header that is a number of seconds, of any size, gives that time or the ceiling, whichever
  -- is less, for a ceiling up to the largest 64-bit integer: neither the parse nor the product with
  -- a second wraps around.
  pub retry_after-itoa :
      (n limit : ℕ)
      → limit ≤ max_int
      → retry_after parse_time now (itoa n) limit ≡ min (n * second) limit
  retry_after-itoa n limit h = retry_after-by_number (itoa n) limit (itoa-ne-nil n) ∙ go (fits n)
    where
      fits : (n : ℕ) → (n ≤ max_int) ⊎ (max_int < n)
      fits n = omega arith

      go :
          (n ≤ max_int) ⊎ (max_int < n)
          → by_number parse_time now (itoa n) (atoi (itoa n)) limit ≡ min (n * second) limit
      go (inl small) =
          ap (λ x. by_number parse_time now (itoa n) x limit) (atoi-itoa n small)
          ∙ by_number_exact (itoa n) n limit
      go (inr large) =
          ap (λ x. by_number parse_time now (itoa n) x limit) (atoi-itoa_above n large)
          ∙ by_range_error (itoa n) limit (no_minus (itoa n) (itoa-ne-nil n) (itoa-IsDigit n))
          ∙ omega arith
