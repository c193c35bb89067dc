-- ===== src/Sessions.antt =====
-- tools/actions/session_manager.py: the process that keeps a session, and
-- `get_session_defaults` of tools/config/__init__.py.
pub mod Laws
use waydroid.Base.{
  ℕ, zero, suc, ◌*◌, String, ◌<>◌, Bool, true, false, not, ◌&&◌, ◌||◌, Option, none, some, List, [],
  ◌∷◌,
}
use waydroid.Base.{
  M, Result, ok, raised, NoneType, value_error, pure, raise, gets, query, modify, when, try_except,
  is_os_error, then_result, starts_with, index_error,
}
use waydroid.Base.{Exc, ◌>>=◌, ◌>>◌, ◌==◌, string_eq, if◌then◌else◌}
use waydroid.Apps.{is_caught}
use waydroid.Base.Dict
use waydroid.Base.Dict.{item, is_some}
use waydroid.Base.Int.{ℤ, pos, negsuc, int}
use waydroid.Base.Text.{str, path_join, splitlines}
use waydroid.Host.{Host}
use waydroid.Images.Rootfs.{Session}
use waydroid.Props.{host_get}

-- What the session's process asks of its environment, of D-Bus and of its services.
pub record Desktop (H : Host) : Type 0 where
  -- `os.environ.get`
  pub environ : String → Host.State H → Option String
  pub user_name : Host.State H → String
  pub uid : Host.State H → ℕ
  pub gid : Host.State H → ℕ
  pub pid : Host.State H → ℕ
  pub home : Host.State H → String
  -- whether the name on the session bus was free
  pub claim_name : M (Host.State H) Bool
  -- the calls of the container's and of the session's service
  pub start_container : Session → M (Host.State H) NoneType
  pub stop_container : Bool → M (Host.State H) NoneType
  pub stop_session : M (Host.State H) NoneType
  -- the user, clipboard and notification services
  pub start_services : Session → M (Host.State H) NoneType
  pub stop_services : M (Host.State H) NoneType
  -- of a `DBusException`: whether its name starts with `org.freedesktop.DBus.Python`, and its message
  pub is_python_error : Exc → Bool
  pub dbus_message : Exc → String
  pub run_loop : M (Host.State H) NoneType
  pub quit_loop : M (Host.State H) NoneType

-- How `start` ends: it has served a session, or has found one running, or has left the program.
pub data Ending : Type 0 where
  served already_running : Ending
  exited : ℕ → Ending

abbrev is_nil : List String → Bool
is_nil [] = true
is_nil (_ ∷ _) = false

-- `str(os.environ.get(name))`
abbrev pub text_of : Option String → String
text_of none = "None"
text_of (some s) = s

-- `x == "None" or not x`
abbrev pub is_unset : String → Bool
is_unset s = s == "None" || s == ""

-- `str(int(px) * 20)`
unfoldable pub density_of : String → Result String
density_of px = elim (int px) [
  | none ↦ raised (value_error px)
  | some (pos n) ↦ ok (str (n * 20))
  | some (negsuc n) ↦ ok ("-" <> str (suc n * 20))
]

-- The path of the compositor's socket, if it is known.
unfoldable pub socket_path : String → String → Option String
socket_path wayland_display xdg_runtime_dir =
    if starts_with wayland_display "/"
    then some wayland_display
    else if is_unset xdg_runtime_dir
    then none
    else some (path_join xdg_runtime_dir wayland_display)

-- The session, with what `start` writes into the defaults.
unfoldable pub session_of : Session → String → String → Bool → Session
session_of defaults wayland_display dpi background =
    Dict.insert "background_start" (if background then "true" else "false")
      (Dict.insert "lcd_density" dpi (Dict.insert "wayland_display" wayland_display defaults))

module _ (H : Host) (D : Desktop H) where
  open H use {State}

  unfoldable pub get_session_defaults : State → Session
  get_session_defaults s =
      let xdg_data_home : String = elim (D.environ "XDG_DATA_HOME" s) [
        | none ↦ D.home s <> "/.local/share"
        | some dir ↦ dir
      ] in
      let xdg_runtime_dir = text_of (D.environ "XDG_RUNTIME_DIR" s) in
      let pulse = text_of (D.environ "PULSE_RUNTIME_PATH" s) in
      ("user_name", D.user_name s)
      ∷ ("user_id", str (D.uid s))
      ∷ ("group_id", str (D.gid s))
      ∷ ("host_user", D.home s)
      ∷ ("pid", str (D.pid s))
      ∷ ("xdg_data_home", xdg_data_home)
      ∷ ("xdg_runtime_dir", xdg_runtime_dir)
      ∷ ("wayland_display", text_of (D.environ "WAYLAND_DISPLAY" s))
      ∷ ("pulse_runtime_path", if pulse == "None" then xdg_runtime_dir <> "/pulse" else pulse)
      ∷ ("state", "STOPPED")
      ∷ ("lcd_density", "0")
      ∷ ("background_start", "true")
      ∷ ("waydroid_user_state", xdg_data_home <> "/waydroid")
      ∷ ("waydroid_data", xdg_data_home <> "/waydroid/data")
      ∷ []

  -- `WAYLAND_SOCKET` goes before `WAYLAND_DISPLAY`.
  unfoldable pub display_of : State → String
  display_of s =
      let given : String = elim (D.environ "WAYLAND_SOCKET" s) [ none ↦ "" | some path ↦ path ] in
      let wayland_display = text_of (D.environ "WAYLAND_DISPLAY" s) in
      if not (given == "")
      then given
      else if is_unset wayland_display
      then "wayland-0"
      else wayland_display

  unfoldable pub density : State → Result String
  density s =
      let dpi = host_get H "ro.sf.lcd_density" s in
      if not (dpi == "")
      then ok dpi
      else elim (D.environ "GRID_UNIT_PX" s) [ none ↦ ok "0" | some px ↦ density_of px ]

  unfoldable pub make_data : Session → M State NoneType
  make_data session = do
    waydroid_data ← query (λ _. item "waydroid_data" session)
    is_dir ← gets (H.is_dir waydroid_data)
    when (not is_dir) (H.make_dirs waydroid_data)

  -- From the container's start to the end of the main loop.
  -- `splitlines()[-1]` of the message, which is logged.
  unfoldable pub log_reason : Exc → M State NoneType
  log_reason e =
      when (D.is_python_error e && is_nil (splitlines (D.dbus_message e)))
        (raise (index_error "list index out of range"))

  unfoldable pub ask_container : Session → M State Ending
  ask_container session =
      try_except (D.start_container session >> pure served)
        (λ e. if is_caught false e then some (log_reason e >> pure (exited 0)) else none)

  -- What follows, if the container has been started.
  unfoldable pub keep : Session → Ending → M State Ending
  keep session served = D.start_services session >> (D.run_loop >> pure served)
  keep session already_running = pure already_running
  keep session (exited code) = pure (exited code)

  unfoldable pub serve : Session → M State Ending
  serve session = ask_container session >>= keep session

  unfoldable pub start_at : Session → String → Bool → M State Ending
  start_at defaults wayland_display background = do
    make_data defaults
    dpi ← query density
    serve (session_of defaults wayland_display dpi background)

  unfoldable pub start_with_socket : Session → String → Bool → Option String → M State Ending
  start_with_socket defaults wayland_display background none = pure (exited 1)
  start_with_socket defaults wayland_display background (some path) = do
    exists ← gets (H.exists path)
    if exists then start_at defaults wayland_display background else pure (exited 1)

  -- `unlocked_cb` is what is to be done at once where a session runs already.
  unfoldable pub start : M State NoneType → Bool → M State Ending
  start unlocked_cb background = do
    claimed ← D.claim_name
    if claimed
        then (do
          defaults ← gets get_session_defaults
          wayland_display ← gets display_of
          xdg_runtime_dir ← query (λ _. item "xdg_runtime_dir" defaults)
          start_with_socket defaults wayland_display background
              (socket_path wayland_display xdg_runtime_dir))
        else unlocked_cb >> pure already_running

  unfoldable pub do_stop : M State NoneType
  do_stop = D.stop_services >> D.quit_loop

  unfoldable pub stop_container : Bool → M State NoneType
  stop_container quit_session =
      try_except (D.stop_container quit_session)
        (λ e. if is_caught false e then some (pure tt) else none)

  -- `Stop` of the service, the end of the bus, and the signals SIGHUP, SIGINT and SIGTERM; SIGUSR1 is
  -- `do_stop` alone.
  unfoldable pub end_session : M State NoneType
  end_session = do_stop >> stop_container false

  unfoldable pub stop : M State NoneType
  stop =
      try_except D.stop_session
        (λ e. if is_caught false e then some (stop_container true) else none)
