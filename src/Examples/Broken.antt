-- ===== src/Examples/Broken.antt =====
-- An upgrade of a running container, on a host where the version of LXC is not told.
use waydroid.Base.{◌≡◌, refl, true, raised, os_error, Result, NoneType, pure, modify, [], ◌∷◌}
use waydroid.Container.Daemon.{Daemon}
use waydroid.Examples.Daemon.{idle, session}
use waydroid.Examples.Everything.{everything}
use waydroid.Host.Machine.{machine, bare}
use waydroid.Initializer.Init.{Remote}
use waydroid.Upgrade.Whole.{upgrade}
use waydroid.Upgrade.Whole.Laws.{upgrade-raised}

abbrev remote : Remote machine
remote = record {
  connect = pure tt;
  get_session = pure session;
  stop = λ quit. pure tt;
  start = λ own. pure tt;
}

abbrev running : Daemon machine
running = record idle {
  os = record bare {
    dirs = "/var/lib/waydroid/lxc/waydroid" ∷ [];
    statuses = "RUNNING\n" ∷ [];
    files = ("/var/lib/waydroid/waydroid.cfg", "") ∷ [];
    configs =
        (
          "/var/lib/waydroid/waydroid.cfg",
          ("waydroid", ("system_ota", "None") ∷ ("vendor_ota", "None") ∷ []) ∷ [],
        )
        ∷ [];
  };
}

abbrev broken : Result NoneType × Daemon machine
broken = upgrade machine true remote running

upgrade-raised_example :
    upgrade machine true (record remote { start = λ own. modify (λ m. bare) }) running
    ≡ (raised (os_error "LXC is not installed"), broken.1)
unfolding everything
upgrade-raised_example =
    upgrade-raised machine remote (λ own. modify (λ m. bare)) true running broken.1
      (os_error "LXC is not installed") refl
