-- ===== src/Examples/Initializing.antt =====
-- Initializing with preinstalled images, and over D-Bus.
use waydroid.Base.{
  ◌≡◌, ◌≢◌, ap, false, ◌==◌, string_eq, List, refl, String, true, none, some, [], ◌∷◌, ◌++◌, ok,
  pure,
}
use waydroid.Base.Dict.{Dict}
use waydroid.Container.Daemon.{Daemon}
use waydroid.Drivers.{named_nodes}
use waydroid.Examples.Everything.{everything}
use waydroid.Host.Machine.{Machine, machine, bare}
use waydroid.Initializer.Guards.{
  IsAuthorized, init_call-IsAuthorized, remote_init_proc_entry-interrupted,
}
use waydroid.Initializer.Init.{Remote, current_status}
use waydroid.Initializer.Laws.{IsSettled, setup_config-IsSettled}
use waydroid.Initializer.Remote.{
  Desk, Server, interrupted, init_call, remote_init_proc_entry, request_of,
}
use waydroid.Initializer.Setup.{Request, Prepared, prepared_of, setup_config}
use waydroid.Lxc.BaseProps.{override}
use waydroid.Lxc.BaseProps.Overrides.{without, override-without}
use waydroid.Services.{new_runner}

-- A host with binder nodes and preinstalled images, whose container runs.
abbrev equipped : Machine
equipped = record bare {
  files =
      ("/proc/cpuinfo", "flags: ssse3 sse4_2")
      ∷ ("/proc/filesystems", "nodev\tbinder\n")
      ∷ ("/dev/binder", "")
      ∷ ("/dev/vndbinder", "")
      ∷ ("/dev/hwbinder", "")
      ∷ ("/etc/waydroid-extra/images/system.img", "")
      ∷ ("/etc/waydroid-extra/images/vendor.img", "")
      ∷ [];
  dirs = "/etc/waydroid-extra/images" ∷ "/var/lib/waydroid/lxc/waydroid" ∷ [];
  statuses = "RUNNING\n" ∷ [];
}

abbrev request : Request
request = record {
  images_path = "";
  system_channel = "";
  vendor_channel = "";
  rom_type = "";
  system_type = "";
}

abbrev prepared : Prepared
prepared =
    prepared_of "MAINLINE" "/etc/waydroid-extra/images" "None" "None"
      (named_nodes "binder" "vndbinder" "hwbinder")

setup_config-IsSettled_example : IsSettled machine prepared
unfolding everything
setup_config-IsSettled_example =
    setup_config-IsSettled machine request equipped (setup_config machine request equipped).1
      prepared refl

abbrev remote : Remote machine
remote = record {
  connect = pure tt;
  get_session = pure [];
  stop = λ quit_session. pure tt;
  start = λ session. pure tt;
}

abbrev own_daemon : Daemon machine
own_daemon = record {
  os = equipped;
  session = none;
  prepared_drivers = true;
  nodes = none;
  hardware = new_runner;
}

abbrev settled_machine : Machine
settled_machine = (setup_config machine request equipped).1

not_stopped : ◌≢◌ {A = String} "RUNNING" "STOPPED"
unfolding string_eq
not_stopped = λ e. differ (ap (λ (s : String). s == "STOPPED") e)
  where
    differ : false ≡ true → ⊥
    differ p = absurd (cc p)

remote_init_proc_entry-interrupted_example :
    ((remote_init_proc_entry machine remote request own_daemon).0 ≡ interrupted)
    × ((remote_init_proc_entry machine remote request own_daemon).1.os
        ≡ (current_status machine settled_machine).1)
unfolding everything
remote_init_proc_entry-interrupted_example =
    remote_init_proc_entry-interrupted machine remote request own_daemon prepared settled_machine
      (current_status machine settled_machine).1 "RUNNING" refl refl not_stopped

abbrev desk : Desk machine
desk = record {
  process_of = λ sender. pure 7;
  check_authorization = λ pid. pure true;
  spawn_worker = λ request. pure tt;
  end_worker = pure tt;
}

abbrev params : Dict String String
params =
    ("system_channel", "https://ota.waydro.id/system")
    ∷ ("vendor_channel", "https://ota.waydro.id/vendor")
    ∷ ("system_type", "VANILLA")
    ∷ []

abbrev server : Server machine
server = record { os = bare; worker = none }

init_call-IsAuthorized_example :
    IsAuthorized machine desk ":1.7" params
    × (asked : Request) × (request_of params ≡ ok asked)
    × ((init_call machine desk ":1.7" params server).1.worker ≡ some asked)
unfolding everything
init_call-IsAuthorized_example =
    init_call-IsAuthorized machine desk ":1.7" params server
      (init_call machine desk ":1.7" params server).1 refl

abbrev props : List String
props = "ro.adb.secure=1" ∷ "ro.hardware.egl=mesa" ∷ "ro.debuggable=0" ∷ []

override-without_example :
    override "ro.hardware.egl" "swiftshader" props
    ≡ without "ro.hardware.egl" props ++ ("ro.hardware.egl=swiftshader" ∷ [])
unfolding everything
override-without_example =
    override-without "ro.hardware.egl" "swiftshader" props ((λ p. absurd (cc p)), ((λ p. refl), tt))
