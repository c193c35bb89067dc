-- ===== src/Hardware.antt =====
-- tools/services/hardware_manager.py: what Android asks of the host: reboot, upgrade and shutdown.
-- `suspend` goes to the session manager or to a freeze, and the two stubs only log.
pub mod Laws
use waydroid.Base.{
  ℕ, zero, suc, String, Bool, true, not, Option, none, some, M, Result, NoneType, pure, gets,
}
use waydroid.Base.{query, raise, modify, of_result, attribute_error, ok, raised, starts_with}
use waydroid.Base.{◌>>=◌, ◌>>◌, ◌==◌, string_eq, if◌then◌else◌}
use waydroid.Base.Dict
use waydroid.Config
use waydroid.Config.{load}
use waydroid.Container.Daemon.{Daemon, lift, set_session}
use waydroid.Container.Daemon
use waydroid.Host.{Host}
use waydroid.Images.Rootfs.{Session, mount_rootfs, umount_rootfs}
use waydroid.Images.Update
use waydroid.Lxc.Control
use waydroid.Lxc.Control.{status}
use waydroid.Protocol.{set_aidl_version}

module _ (H : Host) where
  unfoldable pub reboot : M (Host.State H) NoneType
  reboot = Control.stop H >> Control.start H

  -- `args.session`
  unfoldable pub tracked_session : M (Daemon H) Session
  tracked_session = query (λ d. elim d.session [
    | none ↦ raised (attribute_error "session")
    | some session ↦ ok session
  ])

  -- Before the session is used, and after it.
  unfoldable pub take_down : String → String → String → String → M (Host.State H) NoneType
  take_down system_zip system_time vendor_zip vendor_time = do
    Control.stop H
    umount_rootfs H
    Update.replace H system_zip system_time vendor_zip vendor_time

  unfoldable pub put_up : Session → M (Host.State H) NoneType
  put_up session = do
    cfg ← load H
    images_dir ← Config.get "images_path" cfg
    mount_rootfs H images_dir session
    set_aidl_version H
    Control.start H

  unfoldable pub upgrade : String → String → String → String → M (Daemon H) NoneType
  upgrade system_zip system_time vendor_zip vendor_time = do
    lift (take_down system_zip system_time vendor_zip vendor_time)
    session ← tracked_session
    modify (set_session (some (Dict.insert "background_start" "false" session)))
    lift (put_up (Dict.insert "background_start" "false" session))

  -- The loop of `shutdownRequest`, with `left` tries left: whether the container has stopped.
  unfoldable pub wait_stopped : ℕ → M (Host.State H) Bool
  wait_stopped zero = do seen ← status H; pure (seen == "STOPPED")
  wait_stopped (suc left) = do
    seen ← status H
    if seen == "STOPPED" then pure true else (modify H.sleep >> wait_stopped left)

  -- `reason and reason.startswith("1")`: an empty text starts with no "1".
  unfoldable pub shutdown_request : String → M (Daemon H) NoneType
  shutdown_request reason = do
    stopped ← lift (wait_stopped 30)
    if not stopped
        then pure tt
        else if starts_with reason "1"
        then lift (Control.start H)
        else Daemon.stop H true
