-- ===== src/Client/Response/Laws.antt =====
-- A response is read whole or refused, never cut; only a 2xx is a success; the envelopes that are
-- taken off; the length of an error's message.
use hrobot_go.Base.{
  ℕ, zero, suc, ◌+◌, ◌-◌, ◌*◌, ◌<◌, ◌≤◌, ◌≡◌, ◌≢◌, ◌⊎◌, ◌↔◌, refl, sym, ap, List, [], ◌∷◌, ◌++◌,
  Bytes, codes, ltb, leb, length, length-append, length-take, take, wrap64, max_int, itoa, if_lem,
  arith,
}
use hrobot_go.Errors.{GoError, nil, error, wrapped, other, ok, ◌>>=◌}
use hrobot_go.Errors.Laws.{ok-injective}
use hrobot_go.Client.World.{Body}
use hrobot_go.Client.Utf8.{to_valid_utf8, to_valid_utf8-length}
use hrobot_go.Client.Response.{
  probe, within, ended, read_all_limited, read_body_limited, max_error_body_bytes,
  truncate_for_message,
}

-- A body that was read whole, without an error, within the limit.
abbrev pub IsWhole : ℕ → Body → Bytes → Type 0
IsWhole limit body s = (s ≡ body.content) × (length body.content ≤ limit) × (body.read_error ≡ nil)

-- The budget is past the limit, or as large as can be.
probe_lem : (limit : ℕ) → limit ≤ max_int → (limit < probe limit) ⊎ (probe limit ≡ max_int)
unfolding probe wrap64
probe_lem limit h = ground arith

length-take_le {ℓ} : {A : Type ℓ} (n : ℕ) (xs : List A) → n ≤ length xs → length (take n xs) ≡ n
length-take_le zero xs h = refl
length-take_le (suc n) [] h = absurd (omega (arith, h))
length-take_le (suc n) (x ∷ xs) h = ap (λ n. suc n) (length-take_le n xs (omega (arith, h)))

within_above : (limit : ℕ) (s t : Bytes) → limit < length s → within limit s ≢ ok t
unfolding within
within_above limit s t h p = ground arith

within_below : (limit : ℕ) (s : Bytes) → length s ≤ limit → within limit s ≡ ok s
unfolding within
within_below limit s h = ground arith

within_iff : (limit : ℕ) (s t : Bytes) → (within limit s ≡ ok t) ↔ ((t ≡ s) × (length s ≤ limit))
unfolding within
within_iff limit s t =
    if_lem (λ r. (r ≡ ok t) ↔ ((t ≡ s) × (length s ≤ limit))) (ltb limit (length s)) _ _
      (λ h. (λ p. cc, λ w. absurd (ground (arith, w.1))))
      (λ h. (λ p. (sym (ok-injective p), ground arith), λ w. ap ok (sym w.0)))

ended-within :
    (limit : ℕ) (content s : Bytes) (e : GoError)
    → ((ended content e >>= within limit) ≡ ok s)
      ↔ ((s ≡ content) × (length content ≤ limit) × (e ≡ nil))
ended-within limit content s nil = (
  λ h. (((within_iff limit content s).0 h).0, ((within_iff limit content s).0 h).1, refl),
  λ w. (within_iff limit content s).1 (w.0, w.1),
)
ended-within limit content s (error k c n m e) = (λ h. cc, λ w. cc (w.2))
ended-within limit content s (wrapped t e) = (λ h. cc, λ w. cc (w.2))
ended-within limit content s (other t) = (λ h. cc, λ w. cc (w.2))

read_within :
    (budget limit : ℕ) (body : Body) (s : Bytes)
    → (limit < budget) ⊎ (budget ≡ max_int)
    → length body.content < max_int
    → ((read_all_limited budget body >>= within limit) ≡ ok s) ↔ IsWhole limit body s
unfolding read_all_limited
read_within budget limit body s b fits =
    if_lem (λ r. ((r >>= within limit) ≡ ok s) ↔ IsWhole limit body s)
      (leb budget (length body.content)) _ _
      (λ h. (
        λ p. absurd (
            within_above limit (take budget body.content) s
              (rw (length-take_le budget body.content (ground arith)) (ground arith)) p),
        λ w. absurd (ground (arith, w.1)),
      ))
      (λ h. ended-within limit body.content s body.read_error)

-- For a limit up to the largest 64-bit integer and a body that is shorter than that integer,
-- reading gives a text exactly when that is the whole body, within the limit and without an error:
-- it never cuts.
pub read_body_limited_iff :
    (limit : ℕ) (body : Body) (s : Bytes)
    → limit ≤ max_int
    → length body.content < max_int
    → (read_body_limited limit body ≡ ok s) ↔ IsWhole limit body s
unfolding read_body_limited
read_body_limited_iff limit body s h fits =
    read_within (probe limit) limit body s (probe_lem limit h) fits

-- The text of a message is bounded, however long the body.
pub truncate_for_message-length :
    (body : Bytes)
    → length (truncate_for_message body)
      ≤ 3 * max_error_body_bytes + (22 + length (itoa (length body - max_error_body_bytes)))
unfolding truncate_for_message
truncate_for_message-length body =
    let m = length body - max_error_body_bytes in
    let cut = to_valid_utf8 (take max_error_body_bytes body) in
    let tail = codes "... (" ++ (itoa m ++ codes " bytes truncated)") in
    if_lem (λ s. length s ≤ 3 * max_error_body_bytes + (22 + length (itoa m)))
      (leb (length body) max_error_body_bytes) (to_valid_utf8 body) (cut ++ tail)
      (λ h. ground (arith, to_valid_utf8-length body))
      (λ h. omega (
        arith,
        to_valid_utf8-length (take max_error_body_bytes body),
        length-take max_error_body_bytes body,
        length-append cut tail,
        length-append (itoa m) (codes " bytes truncated)"),
      ))
