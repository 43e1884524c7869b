-- ===== src/Services/Boot/Windows.antt =====
-- boot.go: `WindowsConfig` and its methods.
use hrobot_go.Base.{List, Bytes, Bool, Option, ℤ}
use hrobot_go.Services.Boot.Options.{Any, scalar_string, option_strings}

pub record WindowsConfig : Type 0 where
  pub server_ip : Bytes
  pub server_ipv6_net : Bytes
  pub server_number : ℤ
  pub active : Bool
  pub os : Any
  pub lang : Any
  pub password : Option Bytes

unfoldable pub active_os : WindowsConfig → Bytes
unfolding scalar_string
active_os c = scalar_string c.os

unfoldable pub available_os : WindowsConfig → Option (List Bytes)
unfolding option_strings
available_os c = option_strings c.os

unfoldable pub active_lang : WindowsConfig → Bytes
unfolding scalar_string
active_lang c = scalar_string c.lang

unfoldable pub available_langs : WindowsConfig → Option (List Bytes)
unfolding option_strings
available_langs c = option_strings c.lang
