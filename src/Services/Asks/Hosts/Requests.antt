-- ===== src/Services/Asks/Hosts/Requests.antt =====
-- What a server reads from the requests of the boot and IP operations.
use hrobot_go.Client.World.{World}
use hrobot_go.Client.Methods
use hrobot_go.Client.Sends.{Asks}
use hrobot_go.Services.Boot
use hrobot_go.Services.Boot.{
  RescueActivateOpts, LinuxActivateOpts, VncActivateOpts, set_arch, set_filled, add_keys,
  rescue_form, linux_form, vnc_form,
}
use hrobot_go.Services.Ip
