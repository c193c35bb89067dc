-- ===== src/Examples/Daemon.antt =====
-- The container's daemon, on machines that are initialized.
use waydroid.Base.{◌≡◌, ◌↔◌, refl, NoneType, true, false, none, some, List, [], ◌∷◌, Result, ok}
use waydroid.Base.{string_eq, nat_eq, runtime_error}
use waydroid.Base.Text.{text_functions}
use waydroid.Base.Dict.{item, lookup}
use waydroid.Container.Bus.{
  start, Caller, Call, start_call, stop_call, freeze_call, get_session_call, owns, serve,
}
use waydroid.Container.Daemon.{Daemon, stop_body, do_start, stop, prepare_drivers_once}
use waydroid.Container.Admission.{IsAdmitted, start-IsAdmitted}
use waydroid.Container.Isolation.{IsStranger, serve-strangers}
use waydroid.Container.Tracking.{
  stop_body-forgets, do_start-tracks, do_start-raised, stop-IsGone, prepare_drivers_once-once,
  IsGone,
}
use waydroid.Container.Waiting.{wait_for_status_iff, IsSeen}
use waydroid.Container.Freezing.{freeze_frozen, IsLastSeen}
use waydroid.Container.Steps.{wait_for_status, freeze}
use waydroid.Drivers.{named_nodes}
use waydroid.Host.Machine.{Machine, machine, bare}
use waydroid.Examples.Everything.{everything}
use waydroid.Images.Rootfs.{Session}
use waydroid.Services.{new_runner}

abbrev initialized : Machine
initialized = record bare {
  files =
      ("/var/lib/waydroid/waydroid.cfg", "")
      ∷ ("/var/lib/waydroid/waydroid_base.prop", "a=b\n")
      ∷ ("/var/lib/waydroid/lxc/waydroid/config", "lxc.include = config_session\n")
      ∷ [];
  dirs = "/var/lib/waydroid/rootfs" ∷ [];
  statuses = "RUNNING\n" ∷ [];
}

abbrev pub session : Session
session =
    ("user_name", "user")
    ∷ ("user_id", "1000")
    ∷ ("group_id", "1000")
    ∷ ("pid", "42")
    ∷ ("xdg_runtime_dir", "/run/user/1000")
    ∷ ("wayland_display", "wayland-0")
    ∷ ("pulse_runtime_path", "/run/user/1000/pulse")
    ∷ ("waydroid_data", "/home/user/data")
    ∷ ("background_start", "true")
    ∷ ("lcd_density", "0")
    ∷ []

abbrev pub idle : Daemon machine
idle = record {
  os = initialized;
  session = none;
  prepared_drivers = true;
  nodes = some (named_nodes "binder" "vndbinder" "hwbinder");
  hardware = new_runner;
}

abbrev busy : Daemon machine
busy = record idle { session = some session }

abbrev pub stranger : Caller
stranger = record { uid = 1001; pid = 7 }

stranger_differs : IsStranger (some session) stranger
unfolding owns string_eq text_functions item lookup
stranger_differs = (refl, λ e. absurd (cc e))

abbrev calls : List (Call × Caller)
calls =
    (stop_call true, stranger)
    ∷ (start_call session, stranger)
    ∷ (freeze_call, stranger)
    ∷ (get_session_call, stranger)
    ∷ []

serve-strangers_example : serve machine calls busy ≡ busy
serve-strangers_example =
    serve-strangers machine calls busy refl
      (stranger_differs, (stranger_differs, (stranger_differs, (stranger_differs, tt))))

abbrev started : Result NoneType × Daemon machine
started = do_start machine session idle

do_start-tracks_example :
    (idle.session ≡ none)
    × (started.1.session ≡ some session)
    × (started.1.hardware.stopping ≡ false)
unfolding everything
do_start-tracks_example = do_start-tracks machine session idle started.1 refl

do_start-raised_example : (do_start machine session busy).1.session ≡ some session
unfolding everything
do_start-raised_example =
    do_start-raised machine session busy (runtime_error "Already tracking a session") refl

stop-IsGone_example :
    ((stop machine true busy).0 ≡ ok tt) × IsGone machine (some session) (stop machine true busy).1
unfolding everything
stop-IsGone_example = stop-IsGone machine true busy refl

-- A container that needs a moment to freeze.
abbrev freezing : Machine
freezing = record bare { statuses = "RUNNING\n" ∷ "RUNNING\n" ∷ "FROZEN\n" ∷ [] }

wait_for_status_iff_example :
    ((wait_for_status machine "FROZEN" 30 freezing).0 ≡ ok tt) ↔ IsSeen machine "FROZEN" 30 freezing
wait_for_status_iff_example = wait_for_status_iff machine "FROZEN" 30 freezing

freeze_frozen_example : IsLastSeen machine "FROZEN" (freeze machine freezing).1
unfolding everything
freeze_frozen_example = freeze_frozen machine freezing (freeze machine freezing).1 refl refl

-- A daemon that has just been started, on a host with binderfs and the three nodes.
abbrev fresh : Daemon machine
fresh = record idle {
  os = record initialized {
    files =
        ("/proc/filesystems", "nodev\tbinder\n")
        ∷ ("/dev/binder", "")
        ∷ ("/dev/vndbinder", "")
        ∷ ("/dev/hwbinder", "")
        ∷ [];
  };
  prepared_drivers = false;
  nodes = none;
}

abbrev prepared : Result NoneType × Daemon machine
prepared = prepare_drivers_once machine fresh

prepare_drivers_once-once_example : prepare_drivers_once machine prepared.1 ≡ (ok tt, prepared.1)
unfolding everything
prepare_drivers_once-once_example = prepare_drivers_once-once machine fresh prepared.1 refl

-- The session's own process asks for it.
abbrev pub owner : Caller
owner = record { uid = 1000; pid = 42 }

abbrev admitted_daemon : Daemon machine
admitted_daemon = (start machine session owner idle).1

start-IsAdmitted_example : IsAdmitted session owner × (admitted_daemon.session ≡ some session)
unfolding everything
start-IsAdmitted_example = start-IsAdmitted machine session owner idle admitted_daemon refl

abbrev stopped : Result NoneType × Daemon machine
stopped = stop_body machine true busy

stop_body-forgets_example : (stopped.1.session ≡ none) × (stopped.1.hardware.stopping ≡ true)
unfolding everything
stop_body-forgets_example = stop_body-forgets machine true busy stopped.1 refl
