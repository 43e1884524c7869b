-- ===== src/Services/Boot/Rescue.antt =====
-- boot.go: `RescueConfig` and its methods.
use hrobot_go.Base.{List, Bytes, Bool, Option, ℤ}
use hrobot_go.Services.Boot.Options.{
  Any, BootKey, scalar_string, option_strings, scalar_int, option_ints,
}

pub record RescueConfig : Type 0 where
  pub server_ip : Bytes
  pub server_ipv6_net : Bytes
  pub server_number : ℤ
  pub active : Bool
  pub os : Any
  pub arch : Any
  pub authorized_keys : List BootKey
  pub host_keys : List BootKey
  pub password : Option Bytes

unfoldable pub active_os : RescueConfig → Bytes
unfolding scalar_string
active_os c = scalar_string c.os

unfoldable pub available_os : RescueConfig → Option (List Bytes)
unfolding option_strings
available_os c = option_strings c.os

unfoldable pub active_arch : RescueConfig → ℤ
unfolding scalar_int
active_arch c = scalar_int c.arch

unfoldable pub available_archs : RescueConfig → Option (List ℤ)
unfolding option_ints
available_archs c = option_ints c.arch
