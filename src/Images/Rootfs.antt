-- ===== src/Images/Rootfs.antt =====
-- tools/helpers/images.py: `make_prop`, `mount_rootfs` and `umount_rootfs`.
use waydroid.Base.{String, ◌<>◌, Bool, true, false, not, none, some, List, [], ◌∷◌, ◌++◌, M, Result}
use waydroid.Base.{ok, NoneType, pure, raise, gets, query, then_result, runtime_error, when}
use waydroid.Base.{for_each, is_runtime_error, try_except, ◌>>=◌, ◌>>◌, ◌==◌, string_eq}
use waydroid.Base.{if◌then◌else◌}
use waydroid.Base.Text.{unlines, splitlines, replace}
use waydroid.Base.Dict.{Dict, item}
use waydroid.Config
use waydroid.Config.{work, rootfs, overlay, overlay_rw, overlay_work, load, save}
use waydroid.Host.{Host, Config}
use waydroid.Mount.{ismount, bind, bind_file, mount, mount_overlay, umount_all}

abbrev pub Session : Type 0
Session = Dict String String

-- `add_prop(key, cfg_key)`: the line that is added, if one is.
prop_of : String → String → Session → Result (List String)
prop_of key cfg_key cfg = then_result (item cfg_key cfg) (λ value.
    ok (if value == "None" then [] else (key <> "=" <> replace value "/mnt/" "/mnt_extra/") ∷ []))

props_of : List (String × String) → Session → Result (List String)
unfolding prop_of
props_of [] cfg = ok []
props_of ((key, cfg_key) ∷ rest) cfg =
    then_result (prop_of key cfg_key cfg)
      (λ found. then_result (props_of rest cfg) (λ later. ok (found ++ later)))

abbrev session_props : List (String × String)
session_props =
    ("waydroid.host.user", "user_name")
    ∷ ("waydroid.host.uid", "user_id")
    ∷ ("waydroid.host.gid", "group_id")
    ∷ ("waydroid.host_data_path", "waydroid_data")
    ∷ ("waydroid.background_start", "background_start")
    ∷ []

abbrev container_props : List String
container_props =
    "waydroid.xdg_runtime_dir=/run/xdg" ∷ "waydroid.pulse_runtime_path=/run/xdg/pulse"
    ∷ "waydroid.wayland_display=wayland-0" ∷ []

-- The lines of the file, from those of waydroid_base.prop.
unfoldable pub full_props : List String → Bool → Session → Result (List String)
unfolding props_of
full_props base has_sensors cfg = then_result (props_of session_props cfg) (λ found.
    then_result (item "lcd_density" cfg) (λ dpi. ok (
      base
      ++ (found
          ++ (container_props
              ++ ((if has_sensors then [] else "waydroid.stub_sensors_hal=1" ∷ [])
                  ++ (if dpi == "0" then [] else ("ro.sf.lcd_density=" <> dpi) ∷ [])))))))

is_nil : List String → Bool
is_nil [] = true
is_nil (_ ∷ _) = false

module _ (H : Host) where
  open H use {State}

  unfoldable pub make_prop : Session → String → M State NoneType
  unfolding is_nil
  make_prop cfg full_props_path = do
    is_file ← gets (H.is_file (work <> "/waydroid_base.prop"))
    when (not is_file) (raise (runtime_error "waydroid_base.prop Not found"))
    text ← query (H.read (work <> "/waydroid_base.prop"))
    when (is_nil (splitlines text)) (raise (runtime_error "waydroid_base.prop is broken!!?"))
    has_sensors ← gets (H.which "waydroid-sensord")
    props ← query (λ _. full_props (splitlines text) has_sensors cfg)
    H.write full_props_path (unlines props)
    H.chmod full_props_path "644"

  -- A mount with the default arguments, and one that unmounts its destination first.
  mount_image : String → String → Bool → M State NoneType
  mount_image source destination umount = mount H source destination true umount true none [] true

  overlay_on : String → String → M State NoneType
  overlay_on lower name =
      mount_overlay H (lower ∷ (rootfs <> name) ∷ []) (rootfs <> name)
        (some (overlay_rw <> upper_name, overlay_work <> upper_name)) true true
    where
      upper_name : String
      upper_name = if name == "" then "/system" else name

  -- The overlay over the system image. If it cannot be mounted, overlays are turned off.
  system_overlay : Config → M State Config
  unfolding overlay_on
  system_overlay cfg = try_except (overlay_on overlay "" >> pure cfg) (λ e.
      if is_runtime_error e
      then some (do let cfg' = Config.set "mount_overlays" "False" cfg; save H cfg'; pure cfg')
      else none)

  bind_egl : String → M State NoneType
  bind_egl path = do
    is_dir ← gets (H.is_dir path)
    when is_dir (bind H path (rootfs <> path) true false)

  bind_odm : M State NoneType
  bind_odm = do
    mounted ← query (ismount H "/odm")
    is_dir ← gets (H.is_dir "/vendor/odm")
    if mounted
        then bind H "/odm" (rootfs <> "/odm_extra") true false
        else when is_dir (bind H "/vendor/odm" (rootfs <> "/odm_extra") true false)

  unfoldable pub mount_rootfs : String → Session → M State NoneType
  unfolding mount_image overlay_on system_overlay bind_egl bind_odm
  mount_rootfs images_dir session = do
    cfg ← load H
    mount_image (images_dir <> "/system.img") rootfs true
    overlays ← Config.get "mount_overlays" cfg
    cfg' ← if overlays == "True" then system_overlay cfg else pure cfg
    mount_image (images_dir <> "/vendor.img") (rootfs <> "/vendor") false
    overlays' ← Config.get "mount_overlays" cfg'
    when (overlays' == "True") (overlay_on (overlay <> "/vendor") "/vendor")
    for_each ("/vendor/lib/egl" ∷ "/vendor/lib64/egl" ∷ []) bind_egl
    bind_odm
    make_prop session (work <> "/waydroid.prop")
    bind_file H (work <> "/waydroid.prop") (rootfs <> "/vendor/waydroid.prop") false
        (rootfs <> "/vendor")

  unfoldable pub umount_rootfs : M State NoneType
  umount_rootfs = umount_all H rootfs
