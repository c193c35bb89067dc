-- ===== src/Examples/Commands.antt =====
-- A command at a frozen container, and a session at a compositor whose socket is there.
use waydroid.Base.{ap, sym, Bool}
use waydroid.Apps.{Services, in_session}
use waydroid.Apps.Laws.{AlwaysRaises, in_session-awake}
use waydroid.Base.{
  ◌≡◌, refl, String, Option, none, some, true, false, [], ◌∷◌, M, raise, pure, modify, NoneType,
  dbus_error, ◌==◌, string_eq, if◌then◌else◌,
}
use waydroid.CommandLine.{Leaf, Arguments, Program, main}
use waydroid.CommandLine.Guards.{is_privileged, replaced, main-hides}
use waydroid.Examples.Everything.{everything}
use waydroid.Host.Machine.{Machine, machine, bare}
use waydroid.Images.Rootfs.{Session}
use waydroid.Sessions.{Desktop, start}
use waydroid.Sessions.Laws.{IsOwn, start-IsOwn}

-- The container is frozen where the machine has a file of that name.
abbrev frozen_session : Session
frozen_session = ("state", "FROZEN") ∷ []

abbrev thaw : Machine → Machine
thaw m = record m { files = [] }

abbrev iced : Machine → Machine
iced m = record m { files = ("frozen", "") ∷ [] }

abbrev services : Services machine
services = record {
  session_service = pure tt;
  container_service = pure tt;
  get_session = pure frozen_session;
  freeze = modify iced;
  unfreeze = modify thaw;
  platform = pure true;
  status_bar = pure true;
  install_app = λ p. pure tt;
  remove_app = λ p. pure 0;
  apps = pure [];
  launch_app = λ p. pure tt;
  launch_intent = λ a b. pure "";
  getprop = λ k d. pure d;
  setprop = λ k v. pure tt;
  settings_put = λ k v. pure tt;
  expand = pure tt;
  collapse = pure tt;
  print = λ line. pure tt;
}

abbrev lost : M Machine NoneType
lost = raise (dbus_error "org.freedesktop.DBus.Error.NoReply")

lost-AlwaysRaises : AlwaysRaises lost
lost-AlwaysRaises m = (dbus_error "org.freedesktop.DBus.Error.NoReply", m, refl)

in_session-awake_example :
    in_session machine services false lost
    ≡ in_session machine (record services { freeze = modify (λ m. bare) }) false lost
in_session-awake_example =
    in_session-awake machine services false (modify (λ m. bare)) lost lost-AlwaysRaises

abbrev environ : String → Option String
environ name = if name == "XDG_RUNTIME_DIR" then some "/run/user/1000" else none

abbrev desktop : Desktop machine
desktop = record {
  environ = λ name m. environ name;
  user_name = λ m. "ada";
  uid = λ m. 1000;
  gid = λ m. 1000;
  pid = λ m. 4242;
  home = λ m. "/home/ada";
  claim_name = pure true;
  start_container = λ session. pure tt;
  stop_container = λ quit. pure tt;
  stop_session = pure tt;
  start_services = λ session. pure tt;
  stop_services = pure tt;
  is_python_error = λ e. false;
  dbus_message = λ e. "";
  run_loop = pure tt;
  quit_loop = pure tt;
}

abbrev with_compositor : Machine
with_compositor = record bare { files = ("/run/user/1000/wayland-0", "") ∷ [] }

start-IsOwn_example : (u : Machine) × (session : Session) × IsOwn machine desktop u true session
unfolding everything
start-IsOwn_example =
    start-IsOwn machine desktop (pure tt) true with_compositor
      (start machine desktop (pure tt) true with_compositor).1 refl

-- Functions that leave a file behind, and others that take the machine apart where they are for root.
abbrev harmless : Leaf → Arguments → M Machine NoneType
harmless leaf args = modify iced

abbrev harmful : Leaf → Arguments → M Machine NoneType
harmful leaf args = if is_privileged leaf then modify (λ m. bare) else modify iced

agree_for_users : (leaf : Leaf) → is_privileged leaf ≡ false → harmless leaf ≡ harmful leaf
agree_for_users leaf h =
    ap {A = Bool} {B = Arguments → M Machine NoneType}
      (λ b. λ args. if b then modify (λ m. bare) else modify iced) (sym h)

abbrev users_program : Program machine
users_program = record {
  root = false;
  perform = harmless;
  readable = λ path m. false;
  init_logging = λ path. pure tt;
  init_dbus = pure tt;
  print = λ line. pure tt;
  details_hint = "Use '--details-to-stdout' to get more details";
}

abbrev restart_container : Arguments
restart_container = record {
  action = some "container";
  subaction = some "restart";
  log = none;
  details_to_stdout = false;
  client = false;
  clear_log = false;
  lines = "60";
}

main-hides_example :
    main machine users_program restart_container
    ≡ main machine (replaced machine users_program harmful) restart_container
main-hides_example = main-hides machine users_program harmful restart_container refl agree_for_users
