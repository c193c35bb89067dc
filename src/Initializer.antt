-- ===== src/Initializer.antt =====
-- tools/actions/initializer.py: whether the program is initialized, and the vendor type of the host.
pub mod Setup
pub mod Init
pub mod Remote
pub mod Laws
pub mod Guards
use waydroid.Base.{ℕ, ◌-◌, String, ◌<>◌, Bool, ◌&&◌, Option, none, some}
use waydroid.Base.{◌==◌, nat_eq, ltb, if◌then◌else◌}
use waydroid.Base.Int.{ℤ, pos, negsuc, int}
use waydroid.Base.Text.{str}
use waydroid.Config.{config_path, rootfs}
use waydroid.Host.{Host}
use waydroid.Props.{host_get}

-- The Halium version of a VNDK version above 19. From 32 on it is one less.
abbrev pub halium_version : ℕ → ℕ
halium_version vndk = if ltb 31 vndk then vndk - 19 - 1 else vndk - 19

-- The type for a VNDK version, `vndk is not None`.
unfoldable pub vendor_of_vndk : ℤ → String
vendor_of_vndk (negsuc _) = "MAINLINE"
vendor_of_vndk (pos vndk) =
    if ltb 19 vndk
    then "HALIUM_" <> (str (halium_version vndk) <> (if vndk == 32 then "L" else ""))
    else "MAINLINE"

-- The type for the SDK level of the vendor image, where the VNDK version says nothing.
unfoldable pub vendor_of_api : Option ℤ → String
vendor_of_api none = "MAINLINE"
vendor_of_api (some (negsuc _)) = "MAINLINE"
vendor_of_api (some (pos vendorapi)) =
    if ltb 32 vendorapi then "HALIUM_" <> str (vendorapi - 20) else "MAINLINE"

-- `vndk` and `vendorapi` after `_int_or_none`, which is `int` of the model.
unfoldable pub vendor_type_of : Option ℤ → Option ℤ → String
vendor_type_of (some vndk) vendorapi = vendor_of_vndk vndk
vendor_type_of none vendorapi = vendor_of_api vendorapi

module _ (H : Host) where
  open H use {State}

  unfoldable pub is_initialized : State → Bool
  is_initialized s = H.is_file config_path s && H.is_dir rootfs s

  unfoldable pub get_vendor_type : State → String
  get_vendor_type s =
      vendor_type_of (int (host_get H "ro.vndk.version" s))
        (int (host_get H "ro.vendor.build.version.sdk" s))
