-- ===== src/Initializer/Remote.antt =====
-- tools/actions/initializer.py: `DbusInitializer`, which initializes on behalf of a user, in a process
-- of its own.
use waydroid.Base.{ℕ, String, Bool, true, false, Option, none, some, Result, ok, raised}
use waydroid.Base.{
  M, Exc, NoneType, pure, raise, gets, modify, query, permission_error, dbus_error, then_result,
  when, try_except,
}
use waydroid.Base.{◌>>=◌, ◌>>◌, ◌==◌, string_eq, nat_eq, if◌then◌else◌}
use waydroid.Base.Dict.{Dict, item, is_some}
use waydroid.Config.{load_channels, section_of}
use waydroid.Container.Daemon.{Daemon}
use waydroid.Host.{Host, Config}
use waydroid.Initializer.Init.{Remote, init}
use waydroid.Initializer.Setup.{Request}

-- What the bus, polkit and the processes are asked: the id of the caller's process; whether polkit
-- lets a process do what it asks for; the start of a worker, and its end.
pub record Desk (H : Host) : Type 0 where
  pub process_of : String → M (Host.State H) ℕ
  pub check_authorization : ℕ → M (Host.State H) Bool
  pub spawn_worker : Request → M (Host.State H) NoneType
  pub end_worker : M (Host.State H) NoneType

-- `except dbus.DBusException`
abbrev pub is_dbus_error : Exc → Bool
is_dbus_error (dbus_error _) = true
is_dbus_error _ = false

-- The request for a worker: the parameters, and nothing of `args`.
unfoldable pub request_of : Dict String String → Result Request
request_of params = then_result (item "system_channel" params) (λ system_channel.
    then_result (item "vendor_channel" params) (λ vendor_channel.
      then_result (item "system_type" params) (λ system_type. ok (record {
        images_path = "";
        system_channel = system_channel;
        vendor_channel = vendor_channel;
        rom_type = "";
        system_type = system_type;
      }))))

-- Whether two dictionaries have the same value.
unfoldable pub same_item : String → Dict String String → Dict String String → Result Bool
same_item key params channels =
    then_result (item key params)
      (λ asked. then_result (item key channels) (λ configured. ok (asked == configured)))

-- Both channels are those of the configuration. The second is looked at only where the first is.
unfoldable pub no_auth : Dict String String → Config → Result Bool
no_auth params channels_cfg =
    let channels = section_of "channels" channels_cfg in
    then_result (same_item "system_channel" params channels)
      (λ same. if same then same_item "vendor_channel" params channels else ok false)

-- The service object: the host, and the request of the worker that it has started last.
pub record Server (H : Host) : Type 0 where
  pub os : Host.State H
  pub worker : Option Request

-- What is told when the worker has ended.
pub data Signal : Type 0 where
  finished interrupted : Signal

-- The exit code of the worker's process.
unfoldable pub exit_code : Result NoneType → ℕ
exit_code (ok _) = 0
exit_code (raised _) = 1

-- The end of `monitor_init`
unfoldable pub signal_of : ℕ → Signal
signal_of code = if code == 0 then finished else interrupted

module _ (H : Host) where
  open H use {State}

  unfoldable pub ensure_polkit_auth : Desk H → String → M State Bool
  ensure_polkit_auth desk sender = do
    pid ← desk.process_of sender
    try_except (desk.check_authorization pid) (λ e.
        if is_dbus_error e
        then some (raise (permission_error "Polkit: Authentication timed out"))
        else none)

  unfoldable pub on_host : {A : Type 0} → M State A → M (Server H) A
  on_host m d = let (r, t) = m d.os in (r, record d { os = t })

  unfoldable pub end_running : Desk H → M (Server H) NoneType
  end_running desk = do
    worker ← gets (λ d. d.worker)
    when (is_some worker) (on_host desk.end_worker)

  unfoldable pub remote_init_server : Desk H → Dict String String → M (Server H) NoneType
  remote_init_server desk params = do
    request ← query (λ _. request_of params)
    on_host (desk.spawn_worker request)
    modify (λ d. record d { worker = some request })

  -- `no_auth or ensure_polkit_auth(...)`
  unfoldable pub is_allowed : Desk H → String → Dict String String → M State Bool
  is_allowed desk sender params = do
    channels_cfg ← load_channels H
    free ← query (λ _. no_auth params channels_cfg)
    if free then pure true else ensure_polkit_auth desk sender

  -- `Init`
  unfoldable pub init_call : Desk H → String → Dict String String → M (Server H) NoneType
  init_call desk sender params = do
    end_running desk
    allowed ← on_host (is_allowed desk sender params)
    if allowed
        then remote_init_server desk params
        else raise (permission_error "Polkit: Authentication failed")

  -- `Cancel`
  unfoldable pub cancel : Desk H → M (Server H) NoneType
  cancel = end_running

  -- The worker's process, from the request to the signal: the attributes of its `args` are those
  -- of `prep_args` and of the request, and no session is among them.
  unfoldable pub remote_init_proc_entry : Remote H → Request → Daemon H → Signal × Daemon H
  remote_init_proc_entry remote request d =
      let (r, t) = init H true remote request (record d { session = none }) in
      (signal_of (exit_code r), t)
