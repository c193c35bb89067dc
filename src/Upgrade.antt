-- ===== src/Upgrade.antt =====
-- tools/actions/upgrader.py: `migration`, from the configuration of an older version.
pub mod Laws
pub mod Whole
use waydroid.Base.{
  String, ◌<>◌, Bool, true, false, not, ◌||◌, Option, none, some, List, [], ◌∷◌, map,
}
use waydroid.Base.{M, Result, ok, NoneType, pure, query, when, then_result, except_any}
use waydroid.Base.{◌>>=◌, ◌>>◌, if◌then◌else◌}
use waydroid.Base.Dict.{Dict, is_some}
use waydroid.Base.Text.{path_join}
use waydroid.Config
use waydroid.Config.{work, load, save}
use waydroid.Host.{Host, Config}
use waydroid.Props.{file_get}
use waydroid.Run.{run_unchecked}
use waydroid.Version.{versiontuple, le_tuple}

-- `versiontuple(old) <= versiontuple(limit)`
unfoldable pub at_most : String → String → Result Bool
at_most old limit =
    then_result (versiontuple old) (λ v. then_result (versiontuple limit) (λ w. ok (le_tuple v w)))

unfoldable pub chmod_paths : List String
chmod_paths =
    "cache_http" ∷ "host-permissions" ∷ "lxc" ∷ "images" ∷ "rootfs" ∷ "data" ∷ "waydroid_base.prop"
    ∷ "waydroid.prop" ∷ "waydroid.cfg" ∷ []

-- The names of the binder nodes, with their defaults.
unfoldable pub node_defaults : Dict String String
node_defaults = ("binder", "binder") ∷ ("vndbinder", "vndbinder") ∷ ("hwbinder", "hwbinder") ∷ []

-- The loop over the defaults: a key that the configuration lacks is set.
unfoldable pub add_missing : Dict String String → Config → Config
add_missing [] cfg = cfg
add_missing ((key, value) ∷ rest) cfg =
    add_missing rest (if is_some (Config.get? key cfg) then cfg else Config.set key value cfg)

-- `changed`, after the loop
unfoldable pub lacks_any : Dict String String → Config → Bool
lacks_any [] cfg = false
lacks_any ((key, _) ∷ rest) cfg = not (is_some (Config.get? key cfg)) || lacks_any rest cfg

module _ (H : Host) where
  open H use {State}

  -- Up to 1.3.4: the files are no longer writable for all, and the session's file is removed.
  unfoldable pub tighten : M State NoneType
  tighten = do
    run_unchecked H ("chmod" ∷ "-R" ∷ "g-w,o-w" ∷ map (path_join work) chmod_paths)
    run_unchecked H ("chmod" ∷ "g-w,o-w" ∷ work ∷ [])
    H.remove (path_join work "session.cfg")

  -- Up to 1.6.0: adb asks before a computer may connect.
  unfoldable pub secure_adb : M State NoneType
  secure_adb = do cfg ← load H; save H (Config.set "auto_adb" "False" cfg)

  -- Up to 1.6.3: the names of the binder nodes are written down.
  unfoldable pub keep_nodes : M State NoneType
  keep_nodes = do
    cfg ← load H
    when (lacks_any node_defaults cfg) (save H (add_missing node_defaults cfg))

  unfoldable pub migrate_from : String → M State NoneType
  migrate_from old_ver = do
    before_1_3_5 ← query (λ _. at_most old_ver "1.3.4")
    when before_1_3_5 tighten
    before_1_6_1 ← query (λ _. at_most old_ver "1.6.0")
    when before_1_6_1 secure_adb
    before_1_6_4 ← query (λ _. at_most old_ver "1.6.3")
    when before_1_6_4 keep_nodes

  unfoldable pub migration : M State NoneType
  migration =
      except_any
        (do
          old_ver ← query (file_get H (work <> "/waydroid_base.prop") "waydroid.tools_version")
          migrate_from old_ver)
        (λ _. pure tt)
