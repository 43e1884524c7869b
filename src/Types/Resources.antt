-- ===== src/Types/Resources.antt =====
-- types.go: the resources that only carry data.
use hrobot_go.Base.{List, Bytes, Bool, Option, ℤ}
use hrobot_go.Services.Ip.{NetIp}
use hrobot_go.Types.Scalars.{Float}
use hrobot_go.Types.TrafficSize.{TrafficSize}

pub record IpAddress : Type 0 where
  pub ip : NetIp
  pub gateway : NetIp
  pub mask : ℤ
  pub broadcast : NetIp
  pub server_ip : NetIp
  pub server_number : ℤ
  pub locked : Bool
  pub separate_mac : Bytes
  pub traffic_warnings : Bool
  pub traffic_hourly : ℤ
  pub traffic_daily : ℤ
  pub traffic_monthly : ℤ

pub record Subnet : Type 0 where
  pub ip : NetIp
  pub mask : Bytes

pub record Server : Type 0 where
  pub server_ip : NetIp
  pub server_number : ℤ
  pub server_name : Bytes
  pub product : Bytes
  pub dc : Bytes
  pub traffic : TrafficSize
  pub status : Bytes
  pub cancelled : Bool
  pub paid_until : Bytes
  pub ip : List NetIp
  pub ipv6_net : Bytes
  pub subnet : List Subnet
  pub reset : Bool
  pub rescue : Bool
  pub vnc : Bool
  pub windows : Bool
  pub wol : Bool
  pub hot_swap : Bool
  pub linked_storage_box : Option ℤ

-- A `StringFloat` is a float64.
pub record PriceDetail (D : Float) : Type 0 where
  pub net : D.F
  pub gross : D.F
  pub hourly_net : D.F
  pub hourly_gross : D.F

pub record AddonPrice (D : Float) : Type 0 where
  pub location : Bytes
  pub price : PriceDetail D
  pub price_setup : PriceDetail D
