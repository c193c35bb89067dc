-- ===== src/ArmTranslation.antt =====
-- tools/helpers/arm_translation.py: the layer that runs ARM programs on x86 hosts.
pub mod Manage
pub mod Laws
use waydroid.Base.{String, ◌<>◌, Bool, true, ◌&&◌, List, [], ◌∷◌, M, NoneType, pure}
use waydroid.Base.{gets, for_each, suppress_any, ◌>>=◌, ◌>>◌, if◌then◌else◌}
use waydroid.Base.Text.{path_join}
use waydroid.Config.{overlay}
use waydroid.Host.{Host}

abbrev pub arm_translation_dir : String
arm_translation_dir = "/var/lib/waydroid/arm-translation"

abbrev pub default_archive_url : String
default_archive_url =
    "https://github.com/supremegamers/vendor_google_proprietary_ndk_translation-prebuilt/archive/68734c52556d3d7a6db34c603dd9276915c29f2f.zip"

abbrev pub default_archive_md5 : String
default_archive_md5 = "0b2207c490fcb400aa5c87fcf0d52d38"

unfoldable pub required : List String
required =
    "system/lib64/libndk_translation.so" ∷ "system/lib64/arm64/libc.so"
    ∷ "system/etc/init/ndk_translation.rc" ∷ []

unfoldable pub native_bridge_props : List String
native_bridge_props =
    "ro.dalvik.vm.native.bridge=libndk_translation.so"
    ∷ "ro.product.cpu.abilist=x86_64,x86,arm64-v8a,armeabi-v7a,armeabi"
    ∷ "ro.product.cpu.abilist64=x86_64,arm64-v8a"
    ∷ "ro.product.cpu.abilist32=x86,armeabi-v7a,armeabi" ∷ "ro.product.cpu.abi=x86_64"
    ∷ "ro.dalvik.vm.isa.arm=x86" ∷ "ro.dalvik.vm.isa.arm64=x86_64"
    ∷ "ro.enable.native.bridge.exec=1" ∷ "ro.vendor.enable.native.bridge.exec=1"
    ∷ "ro.vendor.enable.native.bridge.exec64=1" ∷ "ro.ndk_translation.version=0.2.3" ∷ []

module _ (H : Host) where
  open H use {State}

  all_files : List String → State → Bool
  all_files [] s = true
  all_files (rel ∷ rest) s = H.is_file (arm_translation_dir <> ("/" <> rel)) s && all_files rest s

  unfoldable pub is_installed : State → Bool
  unfolding all_files
  is_installed = all_files required

  -- One entry of the installed tree, copied into the overlay.
  sync_entry : String → M State NoneType
  sync_entry name = do
    let src_path = path_join (arm_translation_dir <> "/system") name
    let dst_path = path_join (overlay <> "/system") name
    is_dir ← gets (H.is_dir src_path)
    if is_dir
        then suppress_any (H.remove_tree dst_path) >> H.copy_tree src_path dst_path
        else H.copy src_path dst_path

  unfoldable pub sync_to_overlay : M State NoneType
  unfolding sync_entry
  sync_to_overlay = do
    installed ← gets is_installed
    if installed
        then (do
          H.make_dirs (overlay <> "/system")
          names ← gets (H.list_dir (arm_translation_dir <> "/system"))
          for_each names sync_entry)
        else pure tt
