-- ===== src/Services/Refusals.antt =====
-- What the services refuse before anything is sent.
use hrobot_go.Base.{◌≡◌, ◌≢◌, refl, true, Bytes}
use hrobot_go.Errors.{GoError, nil, fail, new_policy_error, is_policy_error}
use hrobot_go.Client.World.{World}
use hrobot_go.Client.Methods.{Session, Call}
use hrobot_go.Services.Server
use hrobot_go.Services.Server.{Cancellation}
use hrobot_go.Services.Subnet
use hrobot_go.Services.Ip
use hrobot_go.Services.Ip.{NetIp}
use hrobot_go.Services.Boot

module _ (S : Session) where
  -- The call fails and leaves the world as it was.
  abbrev pub IsRefused : {A : Type 0} → Call S A → World S.env → Type 0
  IsRefused call w = (e : GoError) × (call w ≡ (fail e, w)) × (e ≢ nil)

  abbrev pub IsPolicy : {A : Type 0} → Call S A → World S.env → Type 0
  IsPolicy call w = (e : GoError) × (call w ≡ (fail e, w)) × (is_policy_error e ≡ true)

  -- The three operations that the client's policy disallows never send anything, and fail with a
  -- policy error.
  pub IsPolicy-refused :
      {A : Type 0} (c : Cancellation) (ip : NetIp) (net_ip date : Bytes) (w : World S.env)
      → IsPolicy (Server.request_cancellation S c) w
        × IsPolicy (Ip.cancel_ip S ip date) w
        × IsPolicy (Subnet.cancel S {A = A} net_ip date) w
  unfolding Server.request_cancellation Ip.cancel_ip Subnet.cancel new_policy_error is_policy_error
  IsPolicy-refused c ip net_ip date w = ((_, refl, refl), (_, refl, refl), (_, refl, refl))
