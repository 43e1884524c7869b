-- ===== src/Client/Wait.antt =====
-- utils.go: `encodeForm` and `waitForCondition`.
pub mod Laws
pub mod Ready
use hrobot_go.Base.{
  ℕ, zero, suc, ◌+◌, ◌*◌, ◌<◌, ◌≤◌, ◌≡◌, Bool, true, false, [], ◌∷◌, ◌++◌, Bytes, codes, ltb,
  if◌then◌else◌, itoa, Map,
}
use hrobot_go.Url.Values.{Values, set}
use hrobot_go.Errors.{GoError, nil, wrapped, other, error, Result, ok, fail}
use hrobot_go.Client.Data.{second}
use hrobot_go.Client.World.{Env, World}
use hrobot_go.Client.Methods.{Session, Call, Done}

set_all : Map Bytes → Values → Values
set_all [] values = values
set_all ((k, v) ∷ m) values = set_all m (set k v values)

unfoldable pub encode_form : Map Bytes → Values
unfolding set_all
encode_form m = set_all m []

abbrev pub min_delay : ℕ
min_delay = 2 * second

abbrev pub max_delay : ℕ
max_delay = 30 * second

abbrev pub max_polls : ℕ
max_polls = 30

-- `delay *= 2`, held at the longest delay.
abbrev pub next_delay : ℕ → ℕ
next_delay delay = if ltb max_delay (delay * 2) then max_delay else delay * 2

module _ (S : Session) where
  abbrev pub cancelled_wait : GoError → GoError
  cancelled_wait e = wrapped (codes "waiting cancelled") e

  -- The select on the context and the timer.
  pub pause : ℕ → World S.env → GoError × World S.env
  pause d w =
      let (stopped, outside) = S.env.wait d w.outside in
      (stopped, record w { outside = outside; waits = d ∷ w.waits })

  -- What a poll comes to: the end, or another round from this world.
  pub data Poll : Type 0 where
    over : Result Done → Poll
    again : Poll

  abbrev after_pause : GoError × World S.env → Poll × World S.env
  after_pause (nil, w) = (again, w)
  after_pause (e, w) = (over (fail (cancelled_wait e)), w)

  abbrev after_condition : ℕ → Result Bool × World S.env → Poll × World S.env
  after_condition delay (fail e, w) =
      (over (fail (wrapped (codes "error checking condition") e)), w)
  after_condition delay (ok true, w) = (over (ok tt), w)
  after_condition delay (ok false, w) = after_pause (pause delay w)

  abbrev live_poll : Call S Bool → ℕ → GoError → World S.env → Poll × World S.env
  live_poll condition delay nil w = after_condition delay (condition w)
  live_poll condition delay e w = (over (fail (cancelled_wait e)), w)

  pub poll : Call S Bool → ℕ → World S.env → Poll × World S.env
  unfolding pause
  poll condition delay w = live_poll condition delay (S.env.done w.outside) w

  -- The loop, with the number of rounds that are left.
  pub polls : Call S Bool → ℕ → ℕ → Call S Done
  polls condition zero delay w = (
    fail (
        other
          (codes "timeout waiting for condition after " ++ (itoa max_polls ++ codes " retries"))),
    w,
  )
  polls condition (suc left) delay w =
      let (p, w') = poll condition delay w in
      elim p [ over r ↦ (r, w') | again ↦ polls condition left (next_delay delay) w' ]

  unfoldable pub wait_for_condition : Call S Bool → Call S Done
  unfolding polls poll
  wait_for_condition condition = polls condition max_polls min_delay
