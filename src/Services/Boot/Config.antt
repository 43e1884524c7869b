-- ===== src/Services/Boot/Config.antt =====
-- boot.go: `BootConfig`, the configurations of a server; an absent one is a nil pointer.
use hrobot_go.Base.{Bool, Bytes, Option}
use hrobot_go.Services.Boot.Rescue.{RescueConfig}
use hrobot_go.Services.Boot.Linux.{LinuxConfig}
use hrobot_go.Services.Boot.Vnc.{VncConfig}
use hrobot_go.Services.Boot.Windows.{WindowsConfig}

pub record PleskConfig : Type 0 where
  pub active : Bool
  pub hostname : Bytes

pub record CpanelConfig : Type 0 where
  pub active : Bool
  pub hostname : Bytes

pub record BootConfig : Type 0 where
  pub rescue : Option RescueConfig
  pub linux : Option LinuxConfig
  pub vnc : Option VncConfig
  pub windows : Option WindowsConfig
  pub plesk : Option PleskConfig
  pub cpanel : Option CpanelConfig
