-- ===== src/Container/Daemon.antt =====
-- tools/actions/container_manager.py: the daemon's state, `prepare_drivers_once`, `do_start` and `stop`.
use waydroid.Base.{String, ◌<>◌, Bool, true, false, not, Option, none, some, [], ◌∷◌, M, Result}
use waydroid.Base.{ok, raised, NoneType, pure, raise, gets, query, modify, runtime_error}
use waydroid.Base.{attribute_error, when, is_runtime_error, suppress_any, suppress_os_error}
use waydroid.Base.{try_except, except_any, ◌>>=◌, ◌>>◌, ◌==◌, string_eq, if◌then◌else◌}
use waydroid.Base.Text.{has_text}
use waydroid.Base.Dict.{is_some, item}
use waydroid.Config
use waydroid.Config.{load, lxc_path, data_path}
use waydroid.Container.Devices.{set_permissions}
use waydroid.Container.Steps.{wait_for_status, start_cgroup_lite_if_available}
use waydroid.Container.Steps.{keep_schedtune_if_nestable, start_networking, stop_networking}
use waydroid.Container.Steps.{start_sensors, stop_sensors}
use waydroid.Drivers.{BinderNodes, load_binder_nodes, probe_binder_driver, probe_ashmem_driver}
use waydroid.Host.{Host}
use waydroid.Images.Rootfs.{Session, mount_rootfs, umount_rootfs}
use waydroid.Initializer.{is_initialized}
use waydroid.Lxc.Control
use waydroid.Lxc.Control.{status}
use waydroid.Lxc.Session.{generate_session_lxc_config}
use waydroid.Mount.{bind, umount_all}
use waydroid.Protocol.{set_aidl_version}
use waydroid.Services
use waydroid.Services.{ServiceRunner}

-- The daemon: the host, and of `args` and the module's globals what the calls set. `none` is an
-- attribute of `args` that is not there.
pub record Daemon (H : Host) : Type 0 where
  pub os : Host.State H
  pub session : Option Session
  pub prepared_drivers : Bool
  pub nodes : Option BinderNodes
  -- the runner of services/hardware_manager.py
  pub hardware : ServiceRunner

module _ {H : Host} where
  abbrev pub set_os : {A : Type 0} → Daemon H → Result A × Host.State H → Result A × Daemon H
  set_os d (r, t) = (r, record d { os = t })

  -- A call that changes the host only.
  unfoldable pub lift : {A : Type 0} → M (Host.State H) A → M (Daemon H) A
  lift m d = set_os d (m d.os)

  abbrev pub set_session : Option Session → Daemon H → Daemon H
  set_session session d = record d { session = session }

  abbrev set_nodes : BinderNodes → Daemon H → Daemon H
  set_nodes nodes d = record d { nodes = some nodes }

  abbrev set_prepared : Daemon H → Daemon H
  set_prepared d = record d { prepared_drivers = true }

  abbrev pub set_hardware : (ServiceRunner → ServiceRunner) → Daemon H → Daemon H
  set_hardware f d = record d { hardware = f d.hardware }

  -- `args.HWBINDER_DRIVER`
  unfoldable pub hwbinder_driver : Daemon H → Result String
  hwbinder_driver d = elim d.nodes [
    | none ↦ raised (attribute_error "HWBINDER_DRIVER")
    | some nodes ↦ ok nodes.hwbinder
  ]

module _ (H : Host) where
  load_drivers : M (Host.State H) BinderNodes
  load_drivers = do
    cfg ← load H
    vendor_type ← Config.get "vendor_type" cfg
    when (vendor_type == "MAINLINE") (probe_binder_driver H >> (probe_ashmem_driver H >> pure tt))
    load_binder_nodes H

  node_permissions : BinderNodes → M (Host.State H) NoneType
  node_permissions nodes =
      set_permissions H
        (("/dev/" <> nodes.binder)
          ∷ ("/dev/" <> nodes.vndbinder)
          ∷ ("/dev/" <> nodes.hwbinder)
          ∷ [])
        "666" none

  unfoldable pub prepare_drivers : M (Daemon H) NoneType
  unfolding load_drivers node_permissions
  prepare_drivers = do
    nodes ← lift load_drivers
    modify (set_nodes nodes)
    lift (node_permissions nodes)
    modify set_prepared

  unfoldable pub prepare_drivers_once : M (Daemon H) NoneType
  prepare_drivers_once = do
    prepared ← gets (λ d. d.prepared_drivers)
    if prepared then pure tt else prepare_drivers

  -- Backwards compatibility: a container's configuration that does not include the session's.
  bind_data : Session → M (Host.State H) NoneType
  bind_data session = do
    text ← query (H.read (lxc_path <> "/waydroid/config"))
    if has_text text "config_session" then pure tt else (do
      data_dir ← query (λ _. item "waydroid_data" session)
      bind H data_dir data_path true false)

  -- What `do_start` does to the host, from the network to the container.
  unfoldable pub bring_up : Result String → Session → M (Host.State H) NoneType
  unfolding bind_data
  bring_up hwbinder session = do
    start_networking H
    start_sensors H hwbinder
    start_cgroup_lite_if_available H
    keep_schedtune_if_nestable H
    set_permissions H [] "666" (some session)
    generate_session_lxc_config H session
    bind_data session
    cfg ← load H
    images_dir ← Config.get "images_path" cfg
    mount_rootfs H images_dir session
    set_aidl_version H
    Control.start H

  -- Bringing the container up, and tracking its session.
  unfoldable pub start_session : Session → Result String → M (Daemon H) NoneType
  start_session session hwbinder = do
    lift (bring_up hwbinder session)
    modify (set_hardware Services.start)
    modify (set_session (some session))

  unfoldable pub do_start : Session → M (Daemon H) NoneType
  do_start session = do
    initialized ← lift (gets (is_initialized H))
    when (not initialized) (raise (runtime_error "Waydroid is not initialized"))
    tracked ← gets (λ d. d.session)
    when (is_some tracked) (raise (runtime_error "Already tracking a session"))
    prepare_drivers_once
    hwbinder ← gets hwbinder_driver
    start_session session hwbinder

  -- The container itself, if it is not down already.
  stop_container : M (Host.State H) NoneType
  stop_container = do
    seen ← status H
    if seen == "STOPPED" then pure tt else (do
      Control.stop H
      try_except (wait_for_status H "STOPPED" 30)
          (λ e. if is_runtime_error e then some (pure tt) else none))

  unfoldable pub tear_down : M (Host.State H) NoneType
  unfolding stop_container
  tear_down = do
    stop_container
    stop_networking H
    stop_sensors H
    umount_rootfs H
    suppress_any (umount_all H data_path)

  quit_now : Session → M (Host.State H) NoneType
  quit_now session =
      suppress_os_error (query (λ _. item "pid" session) >>= (λ pid. H.signal_user pid))

  -- `if "session" in args`
  unfoldable pub untrack : Bool → Option Session → M (Daemon H) NoneType
  unfolding quit_now
  untrack quit_session none = pure tt
  untrack quit_session (some session) = do
    when quit_session (lift (quit_now session))
    modify (set_session none)

  -- The body of the `try`.
  unfoldable pub stop_body : Bool → M (Daemon H) NoneType
  stop_body quit_session = do
    modify (set_hardware Services.stop)
    lift tear_down
    tracked ← gets (λ d. d.session)
    untrack quit_session tracked

  unfoldable pub stop : Bool → M (Daemon H) NoneType
  stop quit_session = do
    initialized ← lift (gets (is_initialized H))
    when (not initialized) (raise (runtime_error "Waydroid is not initialized"))
    except_any (stop_body quit_session) (λ _. pure tt)
