-- ===== src/Client/Retry.antt =====
-- client.go: `shouldRetry`, `retryAfter` and `updateRateLimit`.
pub mod Laws
use hrobot_go.Base.{
  ℕ, ◌+◌, ◌*◌, ◌/◌, ◌≡◌, refl, Bool, true, false, not, ◌&&◌, ◌||◌, List, [], ◌∷◌, ◌++◌, Bytes,
  codes, ltb, leb, ◌==◌, if◌then◌else◌, ℤ, pos, negsuc, ◌-ℤ◌, ◌+ℤ◌, scale, wrap64, saturate64,
  ltb_ℤ, atoi, Num, value, err_syntax, err_range, has_prefix, Option, none, some, min,
}
use hrobot_go.Client.Data.{second}
use hrobot_go.Client.World.{
  Method, method_get, method_post, method_put, method_delete, Env, World, Response, RateLimit,
  ResetTime, never, at,
}

abbrev pub is_post : Method → Bool
is_post method_post = true
is_post _ = false

unfoldable pub should_retry : Method → ℕ → ℕ → Bool
should_retry method status_code attempt =
    if status_code == 401
    then attempt == 0
    else if status_code == 429
    then true
    else if leb 500 status_code
    then not (is_post method)
    else false

-- `if d <= 0 { return 0 }; return min(d, limit)`.
clamp : ℤ → ℕ → ℕ
clamp (pos d) limit = min d limit
clamp (negsuc d) limit = 0

-- `time.Until(t)`, where the text is an HTTP date; otherwise `d` stays 0.
until : ℤ → Option ℤ → ℤ
until now none = pos 0
until now (some t) = saturate64 (t -ℤ now)

module _ (parse_time : Bytes → Option ℤ) (now : ℤ) where
  -- The switch on the result of `Atoi`.
  by_number : Bytes → Num ℤ → ℕ → ℕ
  by_number v (value (pos n)) limit =
      if ltb (limit / second) n then limit else clamp (pos (n * second)) limit
  by_number v (value (negsuc n)) limit = clamp (until now (parse_time v)) limit
  by_number v err_range limit =
      if not (has_prefix v (codes "-")) then limit else clamp (until now (parse_time v)) limit
  by_number v err_syntax limit = clamp (until now (parse_time v)) limit

  unfoldable pub retry_after : Bytes → ℕ → ℕ
  unfolding by_number clamp until atoi has_prefix saturate64 ◌-ℤ◌
  retry_after [] limit = 0
  retry_after (c ∷ v) limit = by_number (c ∷ v) (atoi (c ∷ v)) limit

-- The rate limit under construction, and `seen`.
abbrev Seen : Type 0
Seen = RateLimit × Bool

see_limit : Num ℤ → Seen → Seen
see_limit (value n) (rl, seen) = (record rl { limit = n }, true)
see_limit _ s = s

see_remaining : Num ℤ → Seen → Seen
see_remaining (value n) (rl, seen) = (record rl { remaining = n }, true)
see_remaining _ s = s

-- A small number is a delay from now, and the product with a second wraps in 64 bits; a large
-- one is a Unix time.
reset_time : ℤ → ℤ → ResetTime
reset_time now n =
    if ltb_ℤ n (pos 1000000000) then at (now +ℤ wrap64 (scale n second)) else at (scale n second)

see_reset : ℤ → Num ℤ → Seen → Seen
see_reset now (value n) (rl, seen) = (record rl { reset = reset_time now n }, true)
see_reset now _ s = s

abbrev zero_rate_limit : RateLimit
zero_rate_limit = record { limit = pos 0; remaining = pos 0; reset = never }

-- An empty header value is passed over, as is one that `Atoi` refuses; the empty text is one.
module _ (E : Env) where
  -- The lock, and the assignment, where any of the headers was read.
  unfoldable pub keep_seen : RateLimit × Bool → World E → World E
  keep_seen (rl, true) w = record w { rate_limit = rl }
  keep_seen (rl, false) w = w

  unfoldable pub update_rate_limit : (Bytes → Bytes) → World E → World E
  unfolding keep_seen see_limit see_remaining see_reset reset_time atoi wrap64 scale ◌+ℤ◌
  update_rate_limit header w =
      keep_seen
        (see_reset (E.now w.outside) (atoi (header (codes "RateLimit-Reset"))) (
          see_remaining (atoi (header (codes "RateLimit-Remaining")))
            (see_limit (atoi (header (codes "RateLimit-Limit"))) (zero_rate_limit, false))))
        w
