-- ===== src/Services/StorageBox/Resources.antt =====
-- storagebox.go: the resources that the storage box service returns.
use hrobot_go.Base.{Bytes, Bool, ℤ}

pub record StorageBox : Type 0 where
  pub id : ℤ
  pub login : Bytes
  pub name : Bytes
  pub product : Bytes
  pub cancelled : Bool
  pub locked : Bool
  pub location : Bytes
  pub linked_server : ℤ
  pub paid_until : Bytes
  pub disk_quota : ℤ
  pub disk_usage : ℤ
  pub disk_usage_data : ℤ
  pub disk_usage_snapshots : ℤ
  pub webdav : Bool
  pub samba : Bool
  pub ssh : Bool
  pub external_reachability : Bool
  pub zfs : Bool
  pub server : Bytes
  pub host_system : Bytes

pub record StorageBoxSnapshot : Type 0 where
  pub name : Bytes
  pub timestamp : Bytes
  pub size : ℤ
  pub filesystem_size : ℤ
  pub automatic : Bool
  pub comment : Bytes

pub record StorageBoxSubAccount : Type 0 where
  pub username : Bytes
  pub account_id : Bytes
  pub server : Bytes
  pub home_directory : Bytes
  pub samba : Bool
  pub ssh : Bool
  pub external_reachability : Bool
  pub webdav : Bool
  pub read_only : Bool
  pub create_time : Bytes
  pub comment : Bytes

pub record StorageBoxSubAccountCreated : Type 0 where
  pub username : Bytes
  pub password : Bytes
  pub account_id : Bytes
  pub server : Bytes
  pub home_directory : Bytes

pub record StorageBoxPasswordResponse : Type 0 where
  pub password : Bytes
