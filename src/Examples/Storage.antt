-- ===== src/Examples/Storage.antt =====
-- Configurations, commands, mounts, images and drivers, on machines that have them.
use mathlib.Core.List.{Perm}
use mathlib.Core.Path.{subst}
use waydroid.Base.{Exc, raised, modify, ◌∙◌}
use waydroid.Base.Dict
use waydroid.Base.Dict.{is_some, has_key-lookup, lookup-insert_self}
use waydroid.Base.{
  ◌≡◌, ◌≢◌, ap, refl, NoneType, String, ◌<>◌, true, false, none, some, List, [], ◌∷◌, Result, ok,
}
use waydroid.Base.{string_eq, nat_eq, ◌==◌}
use waydroid.Base.Int.{pos}
use waydroid.Base.Text.{str, lines}
use waydroid.Config
use waydroid.Config.{config_path, load, save}
use waydroid.Config.{config_keys, defaults, section_of, complete}
use waydroid.Config.Interpolation.{is_interpolable}
use waydroid.Config.Laws.{effective, get?-complete, ReadsBack, load-save}
use waydroid.Drivers.{
  BinderNodes, setup_binder_nodes, binder_drivers, vndbinder_drivers, hwbinder_drivers,
}
use waydroid.Drivers.Laws.{admitted, IsLastNode, setup_binder_nodes-IsLastNode}
use waydroid.Examples.Everything.{everything}
use waydroid.Host.{Config, Build}
use waydroid.Host.Machine.{Machine, machine, bare, or_missing}
use waydroid.Images.Update.{install_build, install_first}
use waydroid.Images.Integrity.{first_newer, install_offered, install_first-first_newer}
use waydroid.Images.Integrity.{extracting, install_build-sha256, install_build-mismatch}
use waydroid.Mount.{ismount, mount, bind, umount_all, umount_all_list, points}
use waydroid.Mount.Laws.{
  AllGone, umount_all-AllGone, umount_all_list-IsInnerFirst, mount-mounts, bind-mounts,
}
use waydroid.Mount.Order.{IsInnerFirst}
use waydroid.Run.{run}
use waydroid.Run.Laws.{run-eq-ok}

abbrev installed : Config
installed = ("waydroid", ("system_datetime", "100") ∷ ("suspend_action", "stop") ∷ []) ∷ []

get?-complete_example :
    Config.get? "suspend_action" (complete installed)
    ≡ effective config_keys defaults (section_of "waydroid" installed) "suspend_action"
get?-complete_example = get?-complete installed "suspend_action"

abbrev changed : Config
changed = Config.set "auto_adb" "True" (complete [])

-- A written configuration is read back on this machine.
readback : ReadsBack machine changed
readback s t h =
    subst
      (λ m.
        (machine.is_file config_path m ≡ true) × (machine.read_config config_path m ≡ ok changed))
      (ap (λ q. q.1) h) (written s)
  where
    written :
        (m : Machine)
        → (Dict.has_key config_path (Dict.insert config_path "" m.files) ≡ true)
          × (ok (
                or_missing (Dict.lookup config_path (Dict.insert config_path changed m.configs)) [])
              ≡ ok changed)
    written m = (
      has_key-lookup config_path _ ∙ ap is_some (lookup-insert_self config_path "" m.files),
      ap (λ o. ok (or_missing o [])) (lookup-insert_self config_path changed m.configs),
    )

load-save_example :
    (c : Config) × (load machine (save machine changed bare).1
      ≡ (ok c, (save machine changed bare).1))
    × (Config.get? "auto_adb" c ≡ some "True")
unfolding everything
load-save_example =
    load-save machine (complete []) "auto_adb" "True" "auto_adb" bare bare bare
      (save machine changed bare).1 refl refl readback refl refl

-- Running a command.
abbrev after_sync : Result NoneType × Machine
after_sync = run machine ("sync" ∷ []) bare

run-eq-ok_example :
    (out : String) × (machine.process ("sync" ∷ []) bare ≡ (ok (pos 0, out), after_sync.1))
unfolding everything
run-eq-ok_example = run-eq-ok machine ("sync" ∷ []) bare after_sync.1 refl

-- A machine with the root file system mounted, and another inside it.
abbrev mounted : Machine
mounted = record bare {
  mounts = "/var/lib/waydroid/rootfs" ∷ "/var/lib/waydroid/rootfs/vendor" ∷ "/home" ∷ [];
}

abbrev points_found : List String
points_found = "/var/lib/waydroid/rootfs/vendor" ∷ "/var/lib/waydroid/rootfs" ∷ []

abbrev unmounted : Machine
unmounted = (umount_all machine "/var/lib/waydroid/rootfs" mounted).1

umount_all-AllGone_example :
    (ms : List String) × (umount_all_list machine "/var/lib/waydroid/rootfs" "/proc/mounts" mounted
      ≡ ok ms)
    × AllGone machine ms unmounted
unfolding everything
umount_all-AllGone_example =
    umount_all-AllGone machine "/var/lib/waydroid/rootfs" mounted unmounted refl

abbrev mounts_text : String
mounts_text =
    "none /var/lib/waydroid/rootfs none rw 0 0\nnone /var/lib/waydroid/rootfs/vendor none rw 0 0\nnone /home none rw 0 0\n"

umount_all_list-IsInnerFirst_example :
    IsInnerFirst points_found
    × (found : List String) × (points "/proc/mounts" "/var/lib/waydroid/rootfs" (lines mounts_text)
        ≡ ok found)
    × Perm points_found found
unfolding everything
umount_all_list-IsInnerFirst_example =
    umount_all_list-IsInnerFirst machine "/var/lib/waydroid/rootfs" "/proc/mounts" mounts_text
      mounted points_found refl refl

abbrev with_image : Machine
with_image =
    (mount machine "system.img" "/var/lib/waydroid/rootfs" true true true none [] true mounted).1

mount-mounts_example : ismount machine "/var/lib/waydroid/rootfs" with_image ≡ ok true
unfolding everything
mount-mounts_example =
    mount-mounts machine "system.img" "/var/lib/waydroid/rootfs" true true true none [] true mounted
      with_image refl

abbrev with_data : Machine
with_data = (bind machine "/home/user/data" "/var/lib/waydroid/data" true false mounted).1

bind-mounts_example : ismount machine "/var/lib/waydroid/data" with_data ≡ ok true
unfolding everything
bind-mounts_example =
    bind-mounts machine "/home/user/data" "/var/lib/waydroid/data" true false mounted with_data refl

-- A channel with two builds, of which the second is newer than the installed image.
abbrev old_build : Build
old_build = record { datetime = 90; url = "https://ota/old"; filename = "old.zip"; id = "aa" }

abbrev new_build : Build
new_build = record { datetime = 120; url = "https://ota/new"; filename = "new.zip"; id = "bb" }

abbrev downloaded : Machine
downloaded = record bare {
  hashes = ("new.zip", "bb") ∷ ("old.zip", "cc") ∷ [];
  files = ("new.zip", "") ∷ ("old.zip", "") ∷ [];
}

install_first-first_newer_example :
    install_first machine "/images" "system" (old_build ∷ new_build ∷ []) installed downloaded
    ≡ install_offered machine "/images" "system" installed
        (first_newer (pos 100) (old_build ∷ new_build ∷ []))
        downloaded
unfolding everything
install_first-first_newer_example =
    install_first-first_newer machine "/images" "system" (old_build ∷ new_build ∷ []) installed
      downloaded "100" (pos 100) refl refl

abbrev updated : Config
updated = Config.set "system_datetime" "120" installed

abbrev after_install : Machine
after_install = (install_build machine "/images" "system" new_build installed downloaded).1

install_build-sha256_example :
    (zip : String) × (u : Machine) × (machine.download "https://ota/new" "new.zip" downloaded
      ≡ (ok zip, u))
    × (machine.sha256 zip u ≡ ok "bb")
    × (updated ≡ Config.set ("system" <> "_datetime") (str 120) installed)
unfolding everything
install_build-sha256_example =
    install_build-sha256 machine "/images" "system" new_build installed updated downloaded
      after_install refl

cc_ne_aa : ◌≢◌ {A = String} "cc" "aa"
unfolding string_eq
cc_ne_aa = λ e. differ (ap (λ (s : String). s == "aa") e)
  where
    differ : false ≡ true → ⊥
    differ p = absurd (cc p)

install_build-mismatch_example :
    (e : Exc) × (install_build machine "/images" "system" old_build installed downloaded
      ≡ (raised e, (machine.remove "old.zip" downloaded).1))
    × (install_build
          (extracting machine (λ zip path. modify (λ m. bare)))
          "/images"
          "system"
          old_build
          installed
          downloaded
        ≡ (raised e, (machine.remove "old.zip" downloaded).1))
unfolding everything
install_build-mismatch_example =
    install_build-mismatch machine (λ zip path. modify (λ m. bare)) "/images" "system" old_build
      installed downloaded downloaded "old.zip" "cc" refl refl cc_ne_aa

-- A host with two of the families of nodes, without a Halium vendor.
abbrev with_nodes : Machine
with_nodes = record bare {
  files =
      ("/proc/filesystems", "nodev\tbinder\n")
      ∷ ("/dev/binder", "")
      ∷ ("/dev/anbox-binder", "")
      ∷ ("/dev/vndbinder", "")
      ∷ ("/dev/hwbinder", "")
      ∷ [];
}

abbrev chosen : Result BinderNodes × Machine
chosen = setup_binder_nodes machine "MAINLINE" with_nodes

abbrev nodes : BinderNodes
nodes = record {
  binder = "binder";
  vndbinder = "vndbinder";
  hwbinder = "hwbinder";
  binder_protocol = none;
  service_manager_protocol = none;
}

setup_binder_nodes-IsLastNode_example :
    IsLastNode machine (admitted "MAINLINE" binder_drivers) "binder" chosen.1
    × IsLastNode machine (admitted "MAINLINE" vndbinder_drivers) "vndbinder" chosen.1
    × IsLastNode machine (admitted "MAINLINE" hwbinder_drivers) "hwbinder" chosen.1
unfolding everything
setup_binder_nodes-IsLastNode_example =
    setup_binder_nodes-IsLastNode machine "MAINLINE" with_nodes chosen.1 nodes refl

-- Values with percent signs: a reference and a doubled sign are accepted, an escape of a URL is not.
reference_accepted : is_interpolable "%(work)s/100%%" ≡ true
unfolding everything
reference_accepted = refl

escape_refused : is_interpolable "https://ota.waydro.id/my%20system" ≡ false
unfolding everything
escape_refused = refl
