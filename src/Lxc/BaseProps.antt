-- ===== src/Lxc/BaseProps.antt =====
-- tools/helpers/lxc.py: `make_base_props`, which writes the properties that Android starts with.
pub mod Overrides
use Prim.Native.Char.{code}
use waydroid.ArmTranslation.{is_installed, native_bridge_props}
use waydroid.Base.{
  ℕ, String, ◌<>◌, Bool, true, false, not, ◌&&◌, ◌||◌, none, some, List, [], ◌∷◌, ◌++◌,
}
use waydroid.Base.{M, NoneType, Result, ok, raised, pure, gets, query, then_result}
use waydroid.Base.{◌>>=◌, ◌>>◌, ◌==◌, contains, string_eq, nat_eq, if◌then◌else◌}
use waydroid.Base.Dict.{Dict}
use waydroid.Base.Text.{unlines, has_text, replace, strip}
use waydroid.Config.{work, version, load, section_of, preinstalled_images_paths}
use waydroid.Gpu.{basename, render_node, get_vulkan_driver}
use waydroid.Host.{Host}
use waydroid.Props.{host_get, host_list}

-- Of `args`, what the properties depend on. The channels are set where the images are not
-- preinstalled.
pub record Settings : Type 0 where
  pub vendor_type : String
  pub images_path : String
  pub system_ota : String
  pub vendor_ota : String

-- A line for a value that is not empty.
abbrev pub line_if_any : String → String → List String
line_if_any key value = if value == "" then [] else (key <> ("=" <> value)) ∷ []

-- Paths of the host's vendor partitions, as the container sees them.
abbrev pub extra_paths : String → String
extra_paths value = replace (replace value "vendor/" "vendor_extra/") "odm/" "odm_extra/"

-- `s.rstrip('\x00')`
unfoldable pub rstrip_nul : String → String
rstrip_nul String.[] = ""
rstrip_nul (String.◌∷◌ c s) =
    let rest = rstrip_nul s in if code c == 0 && rest == "" then "" else String.◌∷◌ c rest

unfoldable pub lines_of : Dict String String → List String
lines_of [] = []
lines_of ((k, v) ∷ rest) = (k <> ("=" <> v)) ∷ lines_of rest

-- The inner loop of an override. It removes an element of the list that it runs over, and so
-- passes over the element behind it.
unfoldable pub drop_matching : String → List String → List String
drop_matching k [] = []
drop_matching k (elem ∷ []) = if has_text elem (k <> "=") then [] else elem ∷ []
drop_matching k (elem ∷ next ∷ rest) =
    let skipped = drop_matching k rest in
    let kept = drop_matching k (next ∷ rest) in
    if has_text elem (k <> "=") then next ∷ skipped else elem ∷ kept

-- One value of the section `properties`.
unfoldable pub override : String → String → List String → List String
override k v props = drop_matching k props ++ ((k <> ("=" <> v)) ∷ [])

unfoldable pub override_all : Dict String String → List String → List String
override_all [] props = props
override_all ((k, v) ∷ rest) props = override_all rest (override k v props)

-- What the graphics need: the allocator, the EGL library, and the lines for them.
pub record Graphics : Type 0 where
  pub gralloc : String
  pub egl : String
  pub extra : List String

-- Without an allocator of the host's, the one of mesa or the software's.
unfoldable pub fallback_graphics : String → Graphics
fallback_graphics dri =
    if dri == ""
    then record {
      gralloc = "default";
      egl = "swiftshader";
      extra = "debug.stagefright.ccodec=0" ∷ [];
    }
    else record {
      gralloc = "gbm";
      egl = "mesa";
      extra = ("gralloc.gbm.device=" <> dri) ∷ "debug.stagefright.ccodec=0" ∷ [];
    }

module _ (H : Host) where
  open H use {State}

  -- Whether a library of the host's is there under a property's value.
  unfoldable pub has_library : String → String → List String → State → Bool
  has_library hardware prop [] s = false
  has_library hardware prop (lib ∷ rest) s =
      H.is_file (lib <> ("/hw/" <> (hardware <> ("." <> (prop <> ".so"))))) s
      || has_library hardware prop rest s

  unfoldable pub library_dirs : List String
  library_dirs =
      "/odm/lib" ∷ "/odm/lib64" ∷ "/vendor/lib" ∷ "/vendor/lib64" ∷ "/system/lib" ∷ "/system/lib64"
      ∷ []

  unfoldable pub first_hal : String → List String → State → String
  first_hal hardware [] s = ""
  first_hal hardware (p ∷ rest) s =
      let later = first_hal hardware rest s in
      let prop = host_get H p s in
      if not (prop == "") && has_library hardware prop library_dirs s then prop else later

  unfoldable pub find_hal : String → State → String
  find_hal hardware = first_hal hardware (
      ("ro.hardware." <> hardware)
      ∷ "ro.hardware"
      ∷ "ro.product.board"
      ∷ "ro.arch"
      ∷ "ro.board.platform"
      ∷ [])

  -- `find_hidl` and `find_aidl`, on the device of each
  unfoldable pub find_service : String → String → String → State → Bool
  find_service device vendor_type intf s =
      if vendor_type == "MAINLINE"
      then false
      else elim (H.services device s) [ raised _ ↦ false | ok names ↦ contains names intf ]

  unfoldable pub find_gralloc : String → State → String
  find_gralloc vendor_type s =
      let gralloc = find_hal "gralloc" s in
      if not (gralloc == "")
      then gralloc
      else if find_service "/dev/hwbinder" vendor_type
            "android.hardware.graphics.allocator@4.0::IAllocator/default" s
          || find_service "/dev/binder" vendor_type
              "android.hardware.graphics.allocator.IAllocator/default" s
      then "android"
      else ""

  unfoldable pub graphics : String → String → State → Graphics
  graphics vendor_type dri s =
      let gralloc = find_gralloc vendor_type s in
      if gralloc == ""
      then fallback_graphics dri
      else record { gralloc = gralloc; egl = host_get H "ro.hardware.egl" s; extra = [] }

  -- The lines from the start to the extension library.
  unfoldable pub graphics_props : Graphics → State → List String
  graphics_props g s =
      (if H.exists "/dev/ashmem" s then [] else "sys.use_memfd=true" ∷ [])
      ++ ("ro.adb.secure=1"
          ∷ "ro.debuggable=0"
          ∷ (g.extra
              ++ (("ro.hardware.gralloc=" <> g.gralloc)
                  ∷ (line_if_any "ro.hardware.egl" g.egl
                      ++ (line_if_any "media.settings.xml"
                            (extra_paths (host_get H "media.settings.xml" s))
                          ++ (line_if_any "debug.stagefright.ccodec"
                                (host_get H "debug.stagefright.ccodec" s)
                              ++ line_if_any "ro.vendor.extension_library"
                                  (extra_paths (host_get H "ro.vendor.extension_library" s))))))))

  unfoldable pub find_vulkan : String → M State String
  find_vulkan dri = do
    vulkan ← gets (find_hal "vulkan")
    if vulkan == "" && not (dri == "") then get_vulkan_driver H (basename dri) else pure vulkan

  unfoldable pub camera_props : String → State → List String
  camera_props vendor_type s =
      let camera = find_hal "camera" s in
      if host_get H "ro.treble.enabled" s == "true"
      then []
      else if not (camera == "")
      then ("ro.hardware.camera=" <> camera) ∷ []
      else if vendor_type == "MAINLINE"
      then "ro.hardware.camera=v4l2" ∷ []
      else []

  unfoldable pub opengles_prop : State → String
  opengles_prop s =
      let opengles = host_get H "ro.opengles.version" s in
      "ro.opengles.version=" <> (if opengles == "" then "196610" else opengles)

  unfoldable pub update_props : Settings → List String
  update_props settings =
      if contains preinstalled_images_paths settings.images_path
      then "waydroid.updater.disabled=true" ∷ []
      else ("waydroid.system_ota=" <> settings.system_ota)
        ∷ ("waydroid.vendor_ota=" <> settings.vendor_ota)
        ∷ []

  -- A word about the product: the host's property, or else what the device tree says.
  unfoldable pub product_prop : String → State → Result (List String)
  product_prop product s =
      let prop_product = host_get H ("ro.product.vendor." <> product) s in
      let path = "/proc/device-tree/" <> product in
      if not (prop_product == "")
      then ok (("ro.product.waydroid." <> (product <> ("=" <> prop_product))) ∷ [])
      else if H.is_file path s
      then then_result (H.read path s)
          (λ text. ok (line_if_any ("ro.product.waydroid." <> product) (rstrip_nul (strip text))))
      else ok []

  unfoldable pub product_props : List String → State → Result (List String)
  product_props [] s = ok []
  product_props (product ∷ rest) s =
      then_result (product_prop product s)
        (λ first. then_result (product_props rest s) (λ others. ok (first ++ others)))

  -- All lines but those of the configuration.
  unfoldable pub host_props : Settings → M State (List String)
  host_props settings = do
    dri ← query (render_node H)
    first ← gets (λ s. graphics_props (graphics settings.vendor_type dri s) s)
    vulkan ← find_vulkan dri
    camera ← gets (camera_props settings.vendor_type)
    opengles ← gets opengles_prop
    mali ← gets (λ s. lines_of (host_list H "ro.vendor.arm.egl." s))
    product ← query (product_props ("brand" ∷ "device" ∷ "manufacturer" ∷ "model" ∷ "name" ∷ []))
    fingerprint ← gets (host_get H "ro.vendor.build.fingerprint")
    bridge ← gets (λ s. if is_installed H s then native_bridge_props else [])
    pure (
        first
        ++ (line_if_any "ro.hardware.vulkan" vulkan
            ++ (camera
                ++ (opengles
                    ∷ (mali
                        ++ (update_props settings
                            ++ (("waydroid.tools_version=" <> version)
                                ∷ ((if settings.vendor_type == "MAINLINE"
                                      then "ro.vndk.lite=true" ∷ []
                                      else [])
                                    ++ (product
                                        ++ (line_if_any "ro.build.fingerprint" fingerprint
                                            ++ bridge))))))))))

  unfoldable pub make_base_props : Settings → M State NoneType
  make_base_props settings = do
    props ← host_props settings
    cfg ← load H
    H.write (work <> "/waydroid_base.prop")
        (unlines (override_all (section_of "properties" cfg) props))
