-- ===== src/Lxc/Nodes.antt =====
-- tools/helpers/lxc.py: `generate_nodes_lxc_config`, the host's devices that the container is given,
-- and `setup_host_perms`.
pub mod Laws
use waydroid.Base.{
  String, ◌<>◌, Bool, true, false, not, ◌||◌, Option, none, some, List, [], ◌∷◌, ◌++◌,
}
use waydroid.Base.{map, M, Result, ok, raised, NoneType, pure, gets, when, for_each, then_result}
use waydroid.Base.{os_error, ◌>>=◌, ◌>>◌, ◌==◌, string_eq, if◌then◌else◌}
use waydroid.Config.{host_perms}
use waydroid.Drivers.{BinderNodes}
use waydroid.Gpu.{render_node}
use waydroid.Host.{Host}
use waydroid.Lxc.Session.{node_entry}
use waydroid.Props.{host_get}

-- The arguments of a call of `make_entry`.
pub record Node : Type 0 where
  pub src : String
  pub dist : Option String
  pub mnt_type : String
  pub options : String
  pub check : Bool

abbrev pub default_options : String
default_options = "bind,create=file,optional 0 0"

-- `make_entry(src)`, and with a destination, with options, or with both
abbrev pub plain : String → Node
plain path = record {
  src = path;
  dist = none;
  mnt_type = "none";
  options = default_options;
  check = true;
}

abbrev pub at_dist : String → String → Node
at_dist path dist = record (plain path) { dist = some dist }

abbrev pub with_options : String → String → Node
with_options path options = record (plain path) { options = options }

abbrev pub at_with_options : String → String → String → Node
at_with_options path dist options = record (plain path) { dist = some dist; options = options }

-- `make_entry(src, dist, mnt_type, options, False)`
abbrev pub unchecked : String → String → String → String → Node
unchecked path dist mnt_type options = record {
  src = path;
  dist = some dist;
  mnt_type = mnt_type;
  options = options;
  check = false;
}

unfoldable pub device_nodes : List Node
device_nodes =
    unchecked "tmpfs" "dev" "tmpfs" "nosuid 0 0"
    ∷ plain "/dev/zero"
    ∷ plain "/dev/null"
    ∷ plain "/dev/full"
    ∷ plain "/dev/ashmem"
    ∷ plain "/dev/fuse"
    ∷ plain "/dev/ion"
    ∷ plain "/dev/tty"
    ∷ with_options "/dev/char" "bind,create=dir,optional 0 0"
    ∷ plain "/dev/kgsl-3d0"
    ∷ plain "/dev/mali0"
    ∷ plain "/dev/pvr_sync"
    ∷ plain "/dev/pmsg0"
    ∷ plain "/dev/dxg"
    ∷ []

unfoldable pub binder_nodes : BinderNodes → List Node
binder_nodes nodes =
    unchecked ("/dev/" <> nodes.binder) "dev/binder" "none" default_options
    ∷ unchecked ("/dev/" <> nodes.vndbinder) "dev/vndbinder" "none" default_options
    ∷ unchecked ("/dev/" <> nodes.hwbinder) "dev/hwbinder" "none" default_options
    ∷ []

unfoldable pub vendor_nodes : List Node
vendor_nodes =
    at_dist "/dev/hwbinder" "dev/host_hwbinder"
    ∷ at_with_options "/vendor" "vendor_extra" "rbind,optional 0 0"
    ∷ []

unfoldable pub system_nodes : List Node
system_nodes =
    unchecked "none" "dev/pts" "devpts" "defaults,mode=644,ptmxmode=666,create=dir 0 0"
    ∷ plain "/dev/uhid"
    ∷ at_dist "/dev/net/tun" "dev/tun"
    ∷ with_options "/sys/module/lowmemorykiller" "bind,create=dir,optional 0 0"
    ∷ at_with_options host_perms "vendor/etc/host-permissions" "bind,optional 0 0"
    ∷ plain "/dev/sw_sync"
    ∷ with_options "/sys/kernel/debug" "rbind,create=dir,optional 0 0"
    ∷ with_options "/sys/class/leds/vibrator" "bind,create=dir,optional 0 0"
    ∷ with_options "/sys/devices/virtual/timed_output/vibrator" "bind,create=dir,optional 0 0"
    ∷ plain "/dev/Vcodec"
    ∷ plain "/dev/MTK_SMI"
    ∷ plain "/dev/mdp_sync"
    ∷ plain "/dev/mtk_cmdq"
    ∷ unchecked "tmpfs" "mnt_extra" "tmpfs" "nodev 0 0"
    ∷ at_with_options "/mnt/wslg" "mnt_extra/wslg" "rbind,create=dir,optional 0 0"
    ∷ unchecked "tmpfs" "tmp" "tmpfs" "nodev 0 0"
    ∷ unchecked "tmpfs" "var" "tmpfs" "nodev 0 0"
    ∷ unchecked "tmpfs" "run" "tmpfs" "nodev 0 0"
    ∷ with_options "/system/etc/libnfc-nci.conf" "bind,optional 0 0"
    ∷ []

module _ (H : Host) where
  open H use {State}

  -- The entries of the calls, in order: a checked source that is missing has none.
  unfoldable pub entries : List Node → State → List String
  entries [] s = []
  entries (node ∷ rest) s =
      let later = entries rest s in
      if not node.check || H.exists node.src s
      then node_entry node.src node.dist node.mnt_type node.options ∷ later
      else later

  unfoldable pub globbed : State → List Node
  globbed s = map plain (
      H.glob "/dev/fb*" s
      ++ (H.glob "/dev/graphics/fb*" s ++ (H.glob "/dev/video*" s ++ H.glob "/dev/dma_heap/*" s)))

  -- All the calls, for a render node.
  unfoldable pub all_nodes : String → BinderNodes → String → State → List Node
  all_nodes vendor_type nodes render s =
      device_nodes
      ++ (plain render
          ∷ (globbed s
              ++ (binder_nodes nodes
                  ++ ((if vendor_type == "MAINLINE" then [] else vendor_nodes) ++ system_nodes))))

  -- The entries for a render node, unless the host's hwbinder is needed and missing.
  unfoldable pub nodes_for : String → BinderNodes → State → String → Result (List String)
  nodes_for vendor_type nodes s render =
      if not (vendor_type == "MAINLINE" || H.exists "/dev/hwbinder" s)
      then raised (os_error "Binder node \"hwbinder\" of host not found")
      else ok (entries (all_nodes vendor_type nodes render s) s)

  unfoldable pub generate_nodes_lxc_config : String → BinderNodes → State → Result (List String)
  generate_nodes_lxc_config vendor_type nodes s =
      then_result (render_node H s) (nodes_for vendor_type nodes s)

  -- A file, where there is one.
  file_if_any : String → State → List String
  file_if_any path s = if H.exists path s then path ∷ [] else []

  unfoldable pub permission_files : State → List String
  unfolding file_if_any
  permission_files s =
      let sku = host_get H "ro.boot.product.hardware.sku" s in
      let sku_dir = "/odm/etc/permissions/sku_" <> sku in
      H.glob "/vendor/etc/permissions/android.hardware.nfc.*" s
      ++ (file_if_any "/vendor/etc/permissions/android.hardware.consumerir.xml" s
          ++ (H.glob "/odm/etc/permissions/android.hardware.nfc.*" s
              ++ (file_if_any "/odm/etc/permissions/android.hardware.consumerir.xml" s
                  ++ (if sku == ""
                      then []
                      else H.glob (sku_dir <> "/android.hardware.nfc.*") s
                        ++ file_if_any (sku_dir <> "/android.hardware.consumerir.xml") s))))

  unfoldable pub setup_host_perms : M State NoneType
  setup_host_perms = do
    exists ← gets (H.exists host_perms)
    when (not exists) (H.make_dir host_perms)
    treble ← gets (host_get H "ro.treble.enabled")
    if treble == "true"
        then (do
          files ← gets permission_files
          for_each files (λ filename. H.copy filename host_perms))
        else pure tt
