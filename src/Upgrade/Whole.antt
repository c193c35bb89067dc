-- ===== src/Upgrade/Whole.antt =====
-- tools/actions/upgrader.py: `upgrade`, round the migration.
pub mod Laws
use waydroid.Base.{
  String, Bool, true, false, not, ◌&&◌, none, some, pure, M, NoneType, gets, modify, raise,
  type_error, when, except_any,
}
use waydroid.Base.{◌>>=◌, ◌>>◌, ◌==◌, contains, string_eq, if◌then◌else◌}
use waydroid.Config
use waydroid.Config.{load, preinstalled_images_paths}
use waydroid.Container.Daemon
use waydroid.Container.Daemon.{Daemon, lift, set_session}
use waydroid.Drivers.{BinderNodes, load_binder_nodes, probe_ashmem_driver}
use waydroid.Host.{Host}
use waydroid.Images.Update
use waydroid.Initializer.Init.{Remote, current_status}
use waydroid.Lxc.BaseProps.{Settings, make_base_props}
use waydroid.Lxc.Nodes.{setup_host_perms}
use waydroid.Lxc.Setup.{set_lxc_config}
use waydroid.Upgrade.{migration}

module _ (H : Host) where
  open H use {State}

  -- The settings that are taken over into `args`.
  unfoldable pub get_config : M State Settings
  get_config = do
    cfg ← load H
    arch ← Config.get "arch" cfg
    images_path ← Config.get "images_path" cfg
    vendor_type ← Config.get "vendor_type" cfg
    system_ota ← Config.get "system_ota" cfg
    vendor_ota ← Config.get "vendor_ota" cfg
    pure (record {
      vendor_type = vendor_type;
      images_path = images_path;
      system_ota = system_ota;
      vendor_ota = vendor_ota;
    })

  -- `args.session = container.GetSession()` and `container.Stop(False)`
  unfoldable pub ask_stop : Remote H → M (Daemon H) NoneType
  ask_stop remote = do
    session ← lift remote.get_session
    modify (set_session (some session))
    lift (remote.stop false)

  -- Whether the service was reached. Where anything fails, the container is stopped from here.
  unfoldable pub halt_running : Remote H → M (Daemon H) Bool
  halt_running remote = do
    reached ← except_any (lift remote.connect >> pure true) (λ _. pure false)
    if reached
        then except_any (ask_stop remote) (λ _. Daemon.stop H true) >> pure true
        else Daemon.stop H true >> pure false

  unfoldable pub halt_any : Remote H → String → M (Daemon H) Bool
  halt_any remote seen = if seen == "STOPPED" then pure false else halt_running remote

  unfoldable pub refresh_host : Bool → Settings → BinderNodes → M State NoneType
  refresh_host offline settings nodes = do
    when (not offline && not (contains preinstalled_images_paths settings.images_path))
        (Update.get H settings.images_path)
    probe_ashmem_driver H
    setup_host_perms H
    set_lxc_config H settings.vendor_type nodes
    make_base_props H settings

  -- What is done while the container does not run.
  unfoldable pub renew : Bool → Settings → M (Daemon H) NoneType
  renew offline settings = do
    lift (migration H)
    nodes ← lift (load_binder_nodes H)
    modify (λ d. record d { nodes = some nodes })
    lift (refresh_host offline settings nodes)

  -- `container.Start(args.session)`; `container` is not bound where the service was not reached.
  unfoldable pub start_again : Remote H → Bool → M (Daemon H) NoneType
  start_again remote reached = do
    session ← gets (λ d. d.session)
    elim session [
      | none ↦ raise (type_error "session")
      | some own ↦ if reached then lift (remote.start own) else raise (type_error "container")
    ]

  unfoldable pub restart : Remote H → String → Bool → M (Daemon H) NoneType
  restart remote seen reached =
      if seen == "STOPPED" then pure tt else except_any (start_again remote reached) (λ _. pure tt)

  -- What comes before the container is started again: its status before, and whether the service
  -- was reached.
  unfoldable pub upgrade_halted : Bool → Remote H → M (Daemon H) (String × Bool)
  upgrade_halted offline remote = do
    settings ← lift get_config
    modify (set_session none)
    seen ← lift (current_status H)
    reached ← halt_any remote seen
    renew offline settings
    pure (seen, reached)

  unfoldable pub upgrade : Bool → Remote H → M (Daemon H) NoneType
  upgrade offline remote = do
    (seen, reached) ← upgrade_halted offline remote
    restart remote seen reached
