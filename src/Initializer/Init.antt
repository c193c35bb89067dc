-- ===== src/Initializer/Init.antt =====
-- tools/actions/initializer.py: `init`, in the process of the command or in that of the service.
use waydroid.Base.{
  String, ◌<>◌, Bool, true, false, not, Option, none, some, List, [], ◌∷◌, Result, ok, raised,
}
use waydroid.Base.{
  M, NoneType, pure, raise, gets, modify, query, attribute_error, type_error, when, except_any,
  contains,
}
use waydroid.Base.{◌>>=◌, ◌>>◌, ◌==◌, string_eq, if◌then◌else◌}
use waydroid.Config.{lxc_path, rootfs, overlay, overlay_rw, preinstalled_images_paths}
use waydroid.Container.Daemon
use waydroid.Container.Daemon.{Daemon, lift, do_start}
use waydroid.Drivers.{probe_ashmem_driver}
use waydroid.Host.{Host}
use waydroid.Images.Rootfs.{Session}
use waydroid.Images.Update
use waydroid.Images.Update.{remove_overlay}
use waydroid.Initializer.Setup.{Request, Prepared, setup_config}
use waydroid.Lxc.BaseProps.{make_base_props}
use waydroid.Lxc.Control.{status}
use waydroid.Lxc.Nodes.{setup_host_perms}
use waydroid.Lxc.Setup.{set_lxc_config}

-- The container service, as it is called over D-Bus.
pub record Remote (H : Host) : Type 0 where
  pub connect : M (Host.State H) NoneType
  pub get_session : M (Host.State H) Session
  pub stop : Bool → M (Host.State H) NoneType
  pub start : Session → M (Host.State H) NoneType

-- What is known of a container that was stopped: its session, and whether the service was reached.
pub record Halted : Type 0 where
  pub session : Option Session
  pub reached : Bool

module _ (H : Host) where
  open H use {State}

  unfoldable pub current_status : M State String
  current_status = do
    exists ← gets (H.exists (lxc_path <> "/waydroid"))
    if exists then status H else pure "STOPPED"

  -- `args.session`, which need not be there
  unfoldable pub own_session : Daemon H → Result Session
  own_session d = elim d.session [
    | none ↦ raised (attribute_error "session")
    | some session ↦ ok session
  ]

  unfoldable pub halt_own : M (Daemon H) Halted
  halt_own = do
    session ← query own_session
    Daemon.stop H false
    pure (record { session = some session; reached = false })

  -- The service is asked to stop; where that fails, the container is stopped from here.
  unfoldable pub halt_session : Remote H → Option Session → M (Daemon H) Halted
  halt_session remote none = Daemon.stop H false >> pure (record { session = none; reached = true })
  halt_session remote (some session) =
      except_any (lift (remote.stop false)) (λ _. Daemon.stop H false)
      >> pure (record { session = some session; reached = true })

  unfoldable pub halt_remote : Remote H → M (Daemon H) Halted
  halt_remote remote = do
    reached ← except_any (lift remote.connect >> pure true) (λ _. pure false)
    if reached
        then (do
          session ←
              except_any (lift (do session ← remote.get_session; pure (some session)))
                (λ _. pure none)
          halt_session remote session)
        else Daemon.stop H false >> pure (record { session = none; reached = false })

  unfoldable pub halt : Bool → Remote H → String → M (Daemon H) Halted
  halt in_service remote seen =
      if seen == "STOPPED"
      then pure (record { session = none; reached = false })
      else if in_service
      then halt_own
      else halt_remote remote

  unfoldable pub fetch_images : String → M State NoneType
  fetch_images images_path =
      if contains preinstalled_images_paths images_path
      then remove_overlay H
      else Update.get H images_path

  -- A directory with those in it, where it is not there.
  unfoldable pub make_missing : String → List String → M State NoneType
  make_missing path [] = pure tt
  make_missing path (name ∷ names) = do H.make_dir (path <> ("/" <> name)); make_missing path names

  unfoldable pub make_tree : String → List String → M State NoneType
  make_tree path names = do
    is_dir ← gets (H.is_dir path)
    if is_dir then pure tt else H.make_dir path >> make_missing path names

  unfoldable pub prepare_host : Prepared → M State NoneType
  prepare_host prepared = do
    fetch_images prepared.settings.images_path
    make_tree rootfs []
    make_tree overlay ("vendor" ∷ [])
    make_tree overlay_rw ("system" ∷ "vendor" ∷ [])
    probe_ashmem_driver H
    setup_host_perms H
    set_lxc_config H prepared.settings.vendor_type prepared.nodes
    make_base_props H prepared.settings

  -- `do_start(args, session)`, or `container.Start(session)` where there is a container.
  unfoldable pub resume : Bool → Remote H → Halted → M (Daemon H) NoneType
  resume in_service remote halted = elim halted.session [
    | none ↦ raise (type_error "session")
    | some session ↦
        if in_service
        then do_start H session
        else if halted.reached
        then lift (remote.start session)
        else raise (type_error "container")
  ]

  unfoldable pub init_prepared : Bool → Remote H → Prepared → M (Daemon H) NoneType
  init_prepared in_service remote prepared = do
    modify (λ d. record d { nodes = some prepared.nodes })
    seen ← lift current_status
    halted ← halt in_service remote seen
    lift (prepare_host prepared)
    when (not (seen == "STOPPED")) (except_any (resume in_service remote halted) (λ _. pure tt))

  -- That the program is initialized already is only logged.
  unfoldable pub init : Bool → Remote H → Request → M (Daemon H) NoneType
  init in_service remote request = do
    prepared ← lift (setup_config H request)
    elim prepared [ none ↦ pure tt | some p ↦ init_prepared in_service remote p ]
