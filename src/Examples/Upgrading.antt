-- ===== src/Examples/Upgrading.antt =====
-- An upgrade that Android asks for, with no new images, on a host whose container then starts.
use waydroid.Base.{◌≡◌, refl, string_eq, some, Result, NoneType}
use waydroid.Base.Dict
use waydroid.Container.Daemon.{Daemon}
use waydroid.Examples.Daemon.{idle, session}
use waydroid.Examples.Everything.{everything}
use waydroid.Hardware.{upgrade}
use waydroid.Hardware.Laws.{upgrade-background_start}
use waydroid.Host.Machine.{machine}
use waydroid.Images.Rootfs.{Session}

abbrev tracking : Daemon machine
tracking = record idle { session = some session }

abbrev upgraded : Result NoneType × Daemon machine
upgraded = upgrade machine "system.zip" "1" "vendor.zip" "1" tracking

upgrade-background_start_example :
    (s : Session) × (tracking.session ≡ some s)
    × (upgraded.1.session ≡ some (Dict.insert "background_start" "false" s))
unfolding everything
upgrade-background_start_example =
    upgrade-background_start machine "system.zip" "1" "vendor.zip" "1" tracking upgraded.1 refl
