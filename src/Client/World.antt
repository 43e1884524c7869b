-- ===== src/Client/World.antt =====
-- What the client's calls act on: the service behind the transport, the clock and the context, as
-- a parameter; and the state of a run, with a record of what went over the wire.
use hrobot_go.Base.{ℕ, Bool, List, Bytes, ℤ, Option}
use hrobot_go.Errors.{GoError}

-- The HTTP methods that the client uses.
pub data Method : Type 0 where
  method_get method_post method_put method_delete : Method

pub record Request : Type 0 where
  pub method : Method
  pub url : Bytes
  pub body : Bytes
  pub username : Bytes
  pub password : Bytes
  pub user_agent : Bytes
  -- Whether `Content-Type: application/x-www-form-urlencoded` is set.
  pub form : Bool

-- A body that is read to its end, or to an error behind `content`.
pub record Body : Type 0 where
  pub content : Bytes
  pub read_error : GoError

-- `header` is `http.Header.Get`, which gives the empty text for a missing header.
pub record Response : Type 0 where
  pub status_code : ℕ
  pub header : Bytes → Bytes
  pub body : Body

pub data Reply : Type 0 where
  responded : Response → Reply
  transport_error : GoError → Reply

-- Everything outside the client, with a state of its own.
pub record Env : Type 1 where
  pub State : Type 0
  -- `ctx.Err()`, where `ctx.Done()` is ready; nil where it is not.
  pub done : State → GoError
  -- The error of `http.NewRequestWithContext`, or nil.
  pub request_error : Method → Bytes → GoError
  -- `httpClient.Do`.
  pub do_http : Request → State → Reply × State
  -- Waits for a timer of so many nanoseconds or for the context: nil if the timer fired.
  pub wait : ℕ → State → GoError × State
  -- `time.Now()`, in nanoseconds.
  pub now : State → ℤ
  -- `http.ParseTime`.
  pub parse_time : Bytes → Option ℤ

-- `RateLimit`. The zero time is `never`.
pub data ResetTime : Type 0 where
  never : ResetTime
  at : ℤ → ResetTime

pub record RateLimit : Type 0 where
  pub limit : ℤ
  pub remaining : ℤ
  pub reset : ResetTime

-- One round trip.
pub record Exchange : Type 0 where
  pub request : Request
  pub reply : Reply

-- The state of a run: the outside, the client's rate limit, and, the latest first, the round trips
-- and the waits so far.
pub record World (E : Env) : Type 0 where
  pub outside : E.State
  pub rate_limit : RateLimit
  pub exchanges : List Exchange
  pub waits : List ℕ

-- `c.LastRateLimit()`.
abbrev pub last_rate_limit : (E : Env) → World E → RateLimit
last_rate_limit E w = w.rate_limit
