-- ===== src/Lxc/Control.antt =====
-- tools/helpers/lxc.py: the container's status, and starting, stopping, freezing and thawing it.
use waydroid.Base.{ℕ, zero, suc, String, not, [], ◌∷◌}
use waydroid.Base.{M, NoneType, pure, raise, modify, os_error, when, except_any, suppress_os_error}
use waydroid.Base.{◌>>=◌, ◌>>◌, ◌==◌, string_eq, if◌then◌else◌}
use waydroid.Base.Text.{strip}
use waydroid.Config.{lxc_path}
use waydroid.Host.{Host}
use waydroid.Run.{run, run_output, run_background}

-- `args.log`, set in `prep_args`
abbrev log_path : String
log_path = "/var/lib/waydroid/waydroid.log"

module _ (H : Host) where
  open H use {State}

  unfoldable pub status : M State String
  status =
      except_any
        (do
          out ← run_output H ("lxc-info" ∷ "-P" ∷ lxc_path ∷ "-n" ∷ "waydroid" ∷ "-sH" ∷ [])
          pure (strip out))
        (λ _. pure "STOPPED")

  -- The loop of `wait_for_running`, with `timeout` seconds left.
  wait_loop : ℕ → String → M State String
  wait_loop zero lxc_status = pure lxc_status
  wait_loop (suc timeout) lxc_status =
      if lxc_status == "RUNNING"
      then pure lxc_status
      else do lxc_status' ← status; modify H.sleep; wait_loop timeout lxc_status'

  unfoldable pub wait_for_running : M State NoneType
  unfolding wait_loop
  wait_for_running = do
    lxc_status ← status
    lxc_status' ← wait_loop 10 lxc_status
    when (not (lxc_status' == "RUNNING")) (raise (os_error "container failed to start"))

  unfoldable pub start : M State NoneType
  start = do
    run_background H
        ("lxc-start" ∷ "-P" ∷ lxc_path ∷ "-F" ∷ "-n" ∷ "waydroid" ∷ "--" ∷ "/init" ∷ [])
    wait_for_running
    suppress_os_error (H.chmod log_path "666")

  unfoldable pub stop : M State NoneType
  stop = run H ("lxc-stop" ∷ "-P" ∷ lxc_path ∷ "-n" ∷ "waydroid" ∷ "-k" ∷ [])

  unfoldable pub freeze : M State NoneType
  freeze = run H ("lxc-freeze" ∷ "-P" ∷ lxc_path ∷ "-n" ∷ "waydroid" ∷ [])

  unfoldable pub unfreeze : M State NoneType
  unfreeze = run H ("lxc-unfreeze" ∷ "-P" ∷ lxc_path ∷ "-n" ∷ "waydroid" ∷ [])
