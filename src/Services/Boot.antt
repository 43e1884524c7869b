-- ===== src/Services/Boot.antt =====
-- boot.go: `BootService`. The modules below it are the configurations and their fields of type `any`.
pub mod Options
pub mod Rescue
pub mod Linux
pub mod Vnc
pub mod Windows
pub mod Config
use hrobot_go.Base.{
  zero, Bool, List, [], ◌∷◌, ◌++◌, Bytes, codes, Option, none, some, ℤ, pos, itoa_int,
}
use hrobot_go.Url.Values.{Values, set, add}
use hrobot_go.Errors.{nil, new_parse_error}
use hrobot_go.Client.Json.{Decoder}
use hrobot_go.Client.Methods
use hrobot_go.Client.Methods.{Session, Call, Done, and_then, return, reject, no_value}

pub record RescueActivateOpts : Type 0 where
  pub os : Bytes
  pub authorized_keys : List Bytes
  pub keyboard : Bytes
  pub arch : ℤ

pub record LinuxActivateOpts : Type 0 where
  pub dist : Bytes
  pub lang : Bytes
  pub authorized_keys : List Bytes
  pub arch : ℤ

pub record VncActivateOpts : Type 0 where
  pub dist : Bytes
  pub lang : Bytes
  pub arch : ℤ

abbrev pub boot_path : ℤ → Bytes → Bytes
boot_path server_id rest = codes "/boot/" ++ (itoa_int server_id ++ rest)

-- `if opts.Arch != 0`.
abbrev pub set_arch : ℤ → Values → Values
set_arch (pos zero) values = values
set_arch arch values = set (codes "arch") (itoa_int arch) values

abbrev pub set_filled : Bytes → Bytes → Values → Values
set_filled k [] values = values
set_filled k (c ∷ v) values = set k (c ∷ v) values

abbrev pub add_keys : List Bytes → Values → Values
add_keys [] values = values
add_keys (fingerprint ∷ keys) values =
    add_keys keys (add (codes "authorized_key[]") fingerprint values)

-- `if v == "" { return nil, NewParseError(message, nil) }`.
abbrev pub required {ℓ} : (S : Session) {A : Type ℓ} → Bytes → Bytes → Call S A → Call S A
required S message [] call = reject S (new_parse_error message nil)
required S message (c ∷ v) call = call

abbrev pub rescue_form : RescueActivateOpts → Values
rescue_form opts =
    add_keys opts.authorized_keys (
      set_filled (codes "keyboard") opts.keyboard
        (set_arch opts.arch (set (codes "os") opts.os [])))

abbrev pub linux_form : LinuxActivateOpts → Values
linux_form opts =
    add_keys opts.authorized_keys
      (set_arch opts.arch (set (codes "lang") opts.lang (set (codes "dist") opts.dist [])))

abbrev pub vnc_form : VncActivateOpts → Values
vnc_form opts = set_arch opts.arch (set (codes "lang") opts.lang (set (codes "dist") opts.dist []))

-- `A` is the type of the configuration that the operation returns.
module _ {ℓ} (S : Session) {A : Type ℓ} (D : Decoder A) where
  unfoldable pub get : ℤ → Call S A
  get server_id = Methods.get S D (codes "/boot/" ++ itoa_int server_id)

  unfoldable pub activate_rescue : ℤ → RescueActivateOpts → Call S A
  activate_rescue server_id opts =
      required S (codes "os is required") opts.os
        (Methods.post S D (boot_path server_id (codes "/rescue")) (some (rescue_form opts)))

  unfoldable pub get_last_rescue : ℤ → Call S A
  get_last_rescue server_id = Methods.get S D (boot_path server_id (codes "/rescue/last"))

  unfoldable pub activate_linux : ℤ → LinuxActivateOpts → Call S A
  activate_linux server_id opts = required S (codes "dist is required") opts.dist (
      required S (codes "lang is required") opts.lang
        (Methods.post S D (boot_path server_id (codes "/linux")) (some (linux_form opts))))

  unfoldable pub activate_vnc : ℤ → VncActivateOpts → Call S A
  activate_vnc server_id opts = required S (codes "dist is required") opts.dist (
      required S (codes "lang is required") opts.lang
        (Methods.post S D (boot_path server_id (codes "/vnc")) (some (vnc_form opts))))

  unfoldable pub get_last_linux : ℤ → Call S A
  get_last_linux server_id = Methods.get S D (boot_path server_id (codes "/linux/last"))

  unfoldable pub get_windows : ℤ → Call S A
  get_windows server_id = Methods.get S D (boot_path server_id (codes "/windows"))

  unfoldable pub activate_windows : ℤ → Bytes → Bytes → Call S A
  activate_windows server_id lang os = required S (codes "lang is required") lang (
      required S (codes "os is required") os (
        Methods.post S D (boot_path server_id (codes "/windows"))
          (some (set (codes "os") os (set (codes "lang") lang [])))))

module _ (S : Session) where
  unfoldable pub deactivate_rescue : ℤ → Call S Done
  deactivate_rescue server_id = Methods.delete S (boot_path server_id (codes "/rescue"))

  unfoldable pub deactivate_linux : ℤ → Call S Done
  deactivate_linux server_id = Methods.delete S (boot_path server_id (codes "/linux"))

  unfoldable pub deactivate_vnc : ℤ → Call S Done
  deactivate_vnc server_id = Methods.delete S (boot_path server_id (codes "/vnc"))

  unfoldable pub deactivate_windows : ℤ → Call S Done
  deactivate_windows server_id = Methods.delete S (boot_path server_id (codes "/windows"))
