-- ===== src/Container/Steps.antt =====
-- tools/actions/container_manager.py: the steps of starting and stopping that touch only the host,
-- and freezing, thawing and restarting the container.
use waydroid.Base.{ℕ, zero, suc, String, ◌<>◌, not, [], ◌∷◌, M, NoneType, pure, raise, gets}
use waydroid.Base.{
  Exc, modify, runtime_error, when, is_os_error, try_except, try_finally, none, some,
}
use waydroid.Base.{suppress_os_error, ◌>>=◌, ◌>>◌, ◌==◌, string_eq, nat_eq, if◌then◌else◌}
use waydroid.Base.Text.{str, strip, words}
use waydroid.Base.{Result, query}
use waydroid.Base.Int.{ℤ, pos, is_zero}
use waydroid.Host.{Host}
use waydroid.Lxc.Control
use waydroid.Lxc.Control.{status}
use waydroid.Run.{run, run_unchecked, run_output_unchecked, run_background}

abbrev pub schedtune_path : String
schedtune_path = "/sys/fs/cgroup/schedtune"

module _ (H : Host) where
  open H use {State}

  -- The loop of `wait_for_status`, with `left` tries left: each try but the last sleeps.
  unfoldable pub poll : String → Exc → ℕ → M State NoneType
  poll wanted failure zero = do seen ← status H; when (not (seen == wanted)) (raise failure)
  poll wanted failure (suc left) = do
    seen ← status H
    if seen == wanted then pure tt else (modify H.sleep >> poll wanted failure left)

  unfoldable pub wait_for_status : String → ℕ → M State NoneType
  wait_for_status wanted timeout =
      poll wanted
        (runtime_error (
          "WayDroid container did not reach "
          <> (wanted <> (" state within " <> (str timeout <> " seconds")))))
        timeout

  unfoldable pub start_cgroup_lite_if_available : M State NoneType
  start_cgroup_lite_if_available = do
    found ← gets (H.which "start")
    when found (run_unchecked H ("start" ∷ "cgroup-lite" ∷ []) >> pure tt)

  -- The loop over the attempts, with the code of the last one.
  unfoldable pub umount_attempts : ℕ → ℤ → M State ℤ
  umount_attempts zero code = pure code
  umount_attempts (suc attempts) code = do
    code' ← run_unchecked H ("umount" ∷ "-l" ∷ schedtune_path ∷ [])
    if is_zero code' then pure code' else (modify H.sleep >> umount_attempts attempts code')

  unfoldable pub remove_probe : M State NoneType
  remove_probe = do
    suppress_os_error (H.remove_dir (schedtune_path <> "/probe0/probe1"))
    suppress_os_error (H.remove_dir (schedtune_path <> "/probe0"))

  unfoldable pub keep_schedtune_if_nestable : M State NoneType
  keep_schedtune_if_nestable = do
    mounted ← gets (H.is_mount_point schedtune_path)
    if not mounted
        then pure tt
        else try_finally
            (try_except (H.make_dirs (schedtune_path <> "/probe0/probe1"))
              (λ e. if is_os_error e then some (umount_attempts 3 (pos 1) >> pure tt) else none))
            remove_probe

  unfoldable pub waydroid_net_script : State → String
  waydroid_net_script s = H.tools_src s <> "/data/scripts/waydroid-net.sh"

  unfoldable pub start_networking : M State NoneType
  start_networking = do script ← gets waydroid_net_script; run H (script ∷ "start" ∷ [])

  unfoldable pub stop_networking : M State NoneType
  stop_networking = do
    script ← gets waydroid_net_script
    run_unchecked H (script ∷ "stop" ∷ [])
    pure tt

  -- The node is `args.HWBINDER_DRIVER`, which is read here.
  unfoldable pub start_sensors : Result String → M State NoneType
  start_sensors hwbinder_driver = do
    found ← gets (H.which "waydroid-sensord")
    when found (do
      driver ← query (λ _. hwbinder_driver)
      run_background H ("waydroid-sensord" ∷ ("/dev/" <> driver) ∷ []))

  unfoldable pub stop_sensors : M State NoneType
  stop_sensors = do
    found ← gets (H.which "waydroid-sensord")
    if not found then pure tt else (do
      pids ← run_output_unchecked H ("pidof" ∷ "waydroid-sensord" ∷ [])
      if strip pids == ""
          then pure tt
          else (run_unchecked H ("kill" ∷ "-9" ∷ words (strip pids)) >> pure tt))

  unfoldable pub restart : M State NoneType
  restart = do
    seen ← status H
    if seen == "RUNNING" then (Control.stop H >> Control.start H) else pure tt

  unfoldable pub freeze : M State NoneType
  freeze = do
    seen ← status H
    if seen == "RUNNING" then (Control.freeze H >> wait_for_status "FROZEN" 30) else pure tt

  unfoldable pub unfreeze : M State NoneType
  unfreeze = do
    seen ← status H
    if seen == "FROZEN" then (Control.unfreeze H >> wait_for_status "RUNNING" 30) else pure tt
