-- ===== src/Services/Boot/Vnc.antt =====
-- boot.go: `VNCConfig` and its methods.
use hrobot_go.Base.{List, Bytes, Bool, Option, ℤ}
use hrobot_go.Services.Boot.Options.{Any, scalar_string, option_strings, scalar_int, option_ints}

pub record VncConfig : Type 0 where
  pub server_ip : Bytes
  pub server_ipv6_net : Bytes
  pub server_number : ℤ
  pub active : Bool
  pub dist : Any
  pub arch : Any
  pub lang : Any
  pub password : Option Bytes

unfoldable pub active_dist : VncConfig → Bytes
unfolding scalar_string
active_dist c = scalar_string c.dist

unfoldable pub available_dists : VncConfig → Option (List Bytes)
unfolding option_strings
available_dists c = option_strings c.dist

unfoldable pub active_arch : VncConfig → ℤ
unfolding scalar_int
active_arch c = scalar_int c.arch

unfoldable pub available_archs : VncConfig → Option (List ℤ)
unfolding option_ints
available_archs c = option_ints c.arch

unfoldable pub active_lang : VncConfig → Bytes
unfolding scalar_string
active_lang c = scalar_string c.lang

unfoldable pub available_langs : VncConfig → Option (List Bytes)
unfolding option_strings
available_langs c = option_strings c.lang
