-- ===== src/Initializer/Setup.antt =====
-- tools/actions/initializer.py: `setup_config`, which chooses the images and where they come from.
use waydroid.Arch
use waydroid.Base.{
  String, ◌<>◌, Bool, true, false, not, ◌&&◌, ◌||◌, Option, none, some, List, [], ◌∷◌,
}
use waydroid.Base.{M, pure, raise, gets, query, value_error, when}
use waydroid.Base.{◌>>=◌, ◌>>◌, ◌==◌, option_eq, string_eq, nat_eq, if◌then◌else◌}
use waydroid.Base.Dict.{item}
use waydroid.Base.Text.{replace, str}
use waydroid.Config
use waydroid.Config.Interpolation.{check_values}
use waydroid.Config.{preinstalled_images_paths, images_path, load, load_channels, save, section_of}
use waydroid.Drivers.{BinderNodes, setup_binder_nodes}
use waydroid.Host.{Host, Config}
use waydroid.Initializer.{get_vendor_type}
use waydroid.Lxc.BaseProps.{Settings}
use waydroid.Props.{host_get}

-- What is asked for; an empty text is a value that was not given.
pub record Request : Type 0 where
  pub images_path : String
  pub system_channel : String
  pub vendor_channel : String
  pub rom_type : String
  pub system_type : String

-- `args.x`, or else the configured one
abbrev pub or_else : String → String → String
or_else given configured = if given == "" then configured else given

-- `channels_cfg["channels"][key]`, where nothing was given. Loading the channels gives every key
-- a default.
unfoldable pub ask_channels : {S : Type 0} → String → String → Config → M S String
ask_channels given key channels_cfg =
    if given == "" then query (λ _. item key (section_of "channels" channels_cfg)) else pure given

unfoldable pub fill_request : {S : Type 0} → Request → Config → M S Request
fill_request request channels_cfg = do
  system_channel ← ask_channels request.system_channel "system_channel" channels_cfg
  vendor_channel ← ask_channels request.vendor_channel "vendor_channel" channels_cfg
  rom_type ← ask_channels request.rom_type "rom_type" channels_cfg
  system_type ← ask_channels request.system_type "system_type" channels_cfg
  pure (record {
    images_path = request.images_path;
    system_channel = system_channel;
    vendor_channel = vendor_channel;
    rom_type = rom_type;
    system_type = system_type;
  })

unfoldable pub system_ota_of : Request → String → String
system_ota_of request arch =
    request.system_channel
    <> ("/"
        <> (request.rom_type
            <> ("/waydroid_" <> (arch <> ("/" <> (request.system_type <> ".json"))))))

unfoldable pub vendor_ota_of : Request → String → String → String
vendor_ota_of request arch vendor =
    request.vendor_channel
    <> ("/waydroid_" <> (arch <> ("/" <> (replace vendor " " "_" <> ".json"))))

-- The configuration of the host, before the images are chosen.
unfoldable pub describe_host : String → String → BinderNodes → Config → Config
describe_host arch vendor_type nodes cfg = Config.set "hwbinder" nodes.hwbinder (
    Config.set "vndbinder" nodes.vndbinder (
      Config.set "binder" nodes.binder
        (Config.set "vendor_type" vendor_type (Config.set "arch" arch cfg))))

-- Preinstalled images have no channel, and no time.
unfoldable pub without_channels : Config → Config
without_channels cfg = Config.set "vendor_datetime" "0" (
    Config.set "system_datetime" "0"
      (Config.set "vendor_ota" "None" (Config.set "system_ota" "None" cfg)))

-- Another channel than before: its images are newer than any.
unfoldable pub forget_time : String → String → String → Config → Config
forget_time key time ota cfg =
    if Config.get? key cfg == some ota then cfg else Config.set time "0" cfg

unfoldable pub with_channels : String → String → String → Config → Config
with_channels vendor_type system_ota vendor_ota cfg = Config.set "vendor_ota" vendor_ota (
    Config.set "system_ota" system_ota (
      Config.set "vendor_type" vendor_type (
        forget_time "vendor_ota" "vendor_datetime" vendor_ota
          (forget_time "system_ota" "system_datetime" system_ota cfg))))

-- What `setup_config` leaves in `args`, where it returns True.
pub record Prepared : Type 0 where
  pub settings : Settings
  pub nodes : BinderNodes

abbrev pub prepared_of : String → String → String → String → BinderNodes → Prepared
prepared_of vendor_type images_path system_ota vendor_ota nodes = record {
  settings = record {
    vendor_type = vendor_type;
    images_path = images_path;
    system_ota = system_ota;
    vendor_ota = vendor_ota;
  };
  nodes = nodes;
}

module _ (H : Host) where
  open H use {State}

  -- A file or a block device: `os.stat` raises where there is neither.
  unfoldable pub image_exists : String → M State Bool
  image_exists path = do
    is_file ← gets (H.is_file path)
    if is_file then pure true else query (H.is_block path)

  unfoldable pub has_images : String → M State Bool
  has_images preinstalled_images = do
    system_exists ← image_exists (preinstalled_images <> "/system.img")
    vendor_exists ← image_exists (preinstalled_images <> "/vendor.img")
    pure (system_exists && vendor_exists)

  -- The first directory with both images.
  unfoldable pub find_preinstalled : List String → M State (Option String)
  find_preinstalled [] = pure none
  find_preinstalled (preinstalled_images ∷ rest) = do
    is_dir ← gets (H.is_dir preinstalled_images)
    found ← if is_dir then has_images preinstalled_images else pure false
    if found then pure (some preinstalled_images) else find_preinstalled rest

  -- The first vendor whose channel answers, with its URL; the last URL in any case.
  unfoldable pub first_vendor : Request → String → String → List String → M State (String × String)
  first_vendor request arch vendor_ota [] = pure ("", vendor_ota)
  first_vendor request arch vendor_ota (vendor ∷ rest) = do
    let url = vendor_ota_of request arch vendor
    status ← H.retrieve_status url
    if status == 200 then pure (vendor, url) else first_vendor request arch url rest

  -- The part that is done for preinstalled images.
  unfoldable pub use_preinstalled :
      String → BinderNodes → String → Config → M State (Option Prepared)
  use_preinstalled vendor_type nodes path cfg = do
    save H (without_channels (Config.set "images_path" path cfg))
    pure (some (prepared_of vendor_type path "None" "None" nodes))

  -- The part that asks the channels: the system's, and the vendors' in turn.
  unfoldable pub use_channels :
      Request → String → BinderNodes → String → Config → M State (Option Prepared)
  use_channels request arch nodes path cfg = do
    let system_ota = system_ota_of request arch
    status ← H.retrieve_status system_ota
    when (not (status == 200)) (
        raise (
          value_error
            ("Failed to get system OTA channel: " <> (system_ota <> (", error: " <> str status)))))
    device_codename ← gets (host_get H "ro.product.device")
    vendor_type ← gets (get_vendor_type H)
    (vendor, vendor_ota) ← first_vendor request arch "" (device_codename ∷ vendor_type ∷ [])
    when (vendor == "") (raise (value_error ("Failed to get vendor OTA channel: " <> vendor_ota)))
    check_values (vendor ∷ system_ota ∷ vendor_ota ∷ [])
    save H (with_channels vendor system_ota vendor_ota cfg)
    pure (some (prepared_of vendor path system_ota vendor_ota nodes))

  -- Without preinstalled images: False where a channel is missing.
  unfoldable pub use_request : Request → String → BinderNodes → Config → M State (Option Prepared)
  use_request request arch nodes cfg = do
    let path = or_else request.images_path images_path
    check_values (path ∷ [])
    channels_cfg ← load_channels H
    filled ← fill_request request channels_cfg
    if filled.system_channel == "" || filled.vendor_channel == ""
        then pure none
        else use_channels filled arch nodes path (Config.set "images_path" path cfg)

  abbrev pub settle :
      Request → String → String → BinderNodes → Config → Option String → M State (Option Prepared)
  settle request arch vendor_type nodes described none = use_request request arch nodes described
  settle request arch vendor_type nodes described (some path) =
      use_preinstalled vendor_type nodes path described

  unfoldable pub setup_config : Request → M State (Option Prepared)
  setup_config request = do
    cfg ← load H
    arch ← query (Arch.host H)
    check_values (arch ∷ [])
    vendor_type ← gets (get_vendor_type H)
    check_values (vendor_type ∷ [])
    nodes ← setup_binder_nodes H vendor_type
    check_values (nodes.binder ∷ nodes.vndbinder ∷ nodes.hwbinder ∷ [])
    preinstalled ← find_preinstalled preinstalled_images_paths
    settle request arch vendor_type nodes (describe_host arch vendor_type nodes cfg) preinstalled
