-- ===== src/Config.antt =====
-- tools/config: the defaults, and the loading and saving of waydroid.cfg and channels.cfg.
pub mod Laws
pub mod Interpolation
use waydroid.Base.{String, ◌<>◌, Bool, true, false, not, ◌&&◌, Option, none, some, List, [], ◌∷◌}
use waydroid.Base.{M, NoneType, Result, ok, raised, pure, query, then_result}
use waydroid.Base.{key_error, of_result, ◌>>◌}
use waydroid.Base.{contains, string_eq, if◌then◌else◌}
use waydroid.Base.Dict
use waydroid.Base.Dict.{Dict}
use waydroid.Host.{Host, Config}

abbrev pub version : String
version = "1.6.4"

unfoldable pub config_keys : List String
config_keys =
    "arch" ∷ "images_path" ∷ "vendor_type" ∷ "system_datetime" ∷ "vendor_datetime"
    ∷ "suspend_action" ∷ "mount_overlays" ∷ "auto_adb" ∷ []

abbrev pub work : String
work = "/var/lib/waydroid"

-- `args.config`, set in `prep_args`
abbrev pub config_path : String
config_path = "/var/lib/waydroid/waydroid.cfg"

abbrev pub preinstalled_images_paths : List String
preinstalled_images_paths = "/etc/waydroid-extra/images" ∷ "/usr/share/waydroid-extra/images" ∷ []

abbrev pub images_path : String
images_path = "/var/lib/waydroid/images"

abbrev pub rootfs : String
rootfs = "/var/lib/waydroid/rootfs"

abbrev pub overlay : String
overlay = "/var/lib/waydroid/overlay"

abbrev pub overlay_rw : String
overlay_rw = "/var/lib/waydroid/overlay_rw"

abbrev pub overlay_work : String
overlay_work = "/var/lib/waydroid/overlay_work"

abbrev pub data_path : String
data_path = "/var/lib/waydroid/data"

abbrev pub lxc_path : String
lxc_path = "/var/lib/waydroid/lxc"

abbrev pub host_perms : String
host_perms = "/var/lib/waydroid/host-permissions"

-- Each value as `str` writes it.
unfoldable pub defaults : Dict String String
defaults =
    ("arch", "arm64")
    ∷ ("work", work)
    ∷ ("vendor_type", "MAINLINE")
    ∷ ("system_datetime", "0")
    ∷ ("vendor_datetime", "0")
    ∷ (
      "preinstalled_images_paths",
      "['/etc/waydroid-extra/images', '/usr/share/waydroid-extra/images']",
    )
    ∷ ("suspend_action", "freeze")
    ∷ ("mount_overlays", "True")
    ∷ ("auto_adb", "False")
    ∷ ("container_xdg_runtime_dir", "/run/xdg")
    ∷ ("container_wayland_display", "wayland-0")
    ∷ ("images_path", images_path)
    ∷ ("rootfs", rootfs)
    ∷ ("overlay", overlay)
    ∷ ("overlay_rw", overlay_rw)
    ∷ ("overlay_work", overlay_work)
    ∷ ("data", data_path)
    ∷ ("lxc", lxc_path)
    ∷ ("host_perms", host_perms)
    ∷ ("container_pulse_runtime_path", "/run/xdg/pulse")
    ∷ []

abbrev pub channels_path : String
channels_path = "/usr/share/waydroid-extra/channels.cfg"

unfoldable pub channels_defaults : Dict String String
channels_defaults =
    ("config_path", channels_path)
    ∷ ("system_channel", "https://ota.waydro.id/system")
    ∷ ("vendor_channel", "https://ota.waydro.id/vendor")
    ∷ ("rom_type", "lineage")
    ∷ ("system_type", "VANILLA")
    ∷ []

unfoldable pub channels_config_keys : List String
channels_config_keys = "system_channel" ∷ "vendor_channel" ∷ "rom_type" ∷ "system_type" ∷ []

-- The two tests in the body of the loop over the defaults, for one key.
add_default : List String → String → String → Dict String String → Dict String String
add_default configurable key value section =
    if contains configurable key && not (Dict.has_key key section)
    then Dict.insert key value section
    else section

drop_fixed : List String → String → Dict String String → Dict String String
drop_fixed configurable key section =
    if not (contains configurable key) && Dict.has_key key section
    then Dict.erase key section
    else section

-- The loop over the defaults.
unfoldable pub fill : List String → Dict String String → Dict String String → Dict String String
unfolding add_default drop_fixed
fill configurable [] section = section
fill configurable ((key, value) ∷ more) section =
    fill configurable more
      (drop_fixed configurable key (add_default configurable key value section))

abbrev pub or_empty : Option (Dict String String) → Dict String String
or_empty none = []
or_empty (some section) = section

-- `cfg[name]`, for a section that is there or has just been made
unfoldable pub section_of : String → Config → Dict String String
section_of name cfg = or_empty (Dict.lookup name cfg)

-- What `load` makes of the parsed file.
unfoldable pub complete : Config → Config
complete cfg =
    let filled =
      Dict.insert "waydroid" (fill config_keys defaults (section_of "waydroid" cfg)) cfg in
    Dict.insert "properties" (section_of "properties" filled) filled

unfoldable pub complete_channels : Config → Config
complete_channels cfg =
    Dict.insert "channels" (fill channels_config_keys channels_defaults (section_of "channels" cfg))
      cfg

-- `cfg["waydroid"][key]`
unfoldable pub get : {S : Type 0} → String → Config → M S String
get key cfg = elim (Dict.lookup key (section_of "waydroid" cfg)) [
  | none ↦ of_result (raised (key_error key))
  | some value ↦ pure value
]

-- `cfg["waydroid"].get(key)`
unfoldable pub get? : String → Config → Option String
get? key cfg = Dict.lookup key (section_of "waydroid" cfg)

-- `cfg["waydroid"][key] = value`, for a key in lower case and a value that Interpolation accepts, as
-- a literal or a number is; other values are checked with `check_values` before.
unfoldable pub set : String → String → Config → Config
set key value cfg = Dict.insert "waydroid" (Dict.insert key value (section_of "waydroid" cfg)) cfg

module _ (H : Host) where
  open H use {State}

  -- What the file holds, if there is one.
  parse_file : String → State → Result Config
  parse_file path s = if H.is_file path s then H.read_config path s else ok []

  unfoldable pub loaded : State → Result Config
  unfolding parse_file
  loaded s = then_result (parse_file config_path s) (λ cfg. ok (complete cfg))

  unfoldable pub load : M State Config
  load = query loaded

  unfoldable pub load_channels : M State Config
  unfolding parse_file
  load_channels =
      query (λ s. then_result (parse_file channels_path s) (λ cfg. ok (complete_channels cfg)))

  -- `os.makedirs(os.path.dirname(args.config), 0o700, True)`, then the file is written.
  unfoldable pub save : Config → M State NoneType
  save cfg = H.make_dirs work >> H.write_config config_path cfg
