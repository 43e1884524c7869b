-- ===== src/Services/Boot/Linux.antt =====
-- boot.go: `LinuxConfig` and its methods.
use hrobot_go.Base.{List, Bytes, Bool, Option, ℤ}
use hrobot_go.Services.Boot.Options.{
  Any, BootKey, scalar_string, option_strings, scalar_int, option_ints,
}

pub record LinuxConfig : Type 0 where
  pub server_ip : Bytes
  pub server_ipv6_net : Bytes
  pub server_number : ℤ
  pub dist : Any
  pub arch : Any
  pub lang : Any
  pub active : Bool
  pub hostname : Bytes
  pub password : Option Bytes
  pub authorized_keys : List BootKey
  pub host_keys : List BootKey

unfoldable pub active_dist : LinuxConfig → Bytes
unfolding scalar_string
active_dist c = scalar_string c.dist

unfoldable pub available_dists : LinuxConfig → Option (List Bytes)
unfolding option_strings
available_dists c = option_strings c.dist

unfoldable pub active_arch : LinuxConfig → ℤ
unfolding scalar_int
active_arch c = scalar_int c.arch

unfoldable pub available_archs : LinuxConfig → Option (List ℤ)
unfolding option_ints
available_archs c = option_ints c.arch

unfoldable pub active_lang : LinuxConfig → Bytes
unfolding scalar_string
active_lang c = scalar_string c.lang

unfoldable pub available_langs : LinuxConfig → Option (List Bytes)
unfolding option_strings
available_langs c = option_strings c.lang
