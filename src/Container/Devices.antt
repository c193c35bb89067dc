-- ===== src/Container/Devices.antt =====
-- tools/actions/container_manager.py: `set_permissions`, the modes of the host's devices.
use waydroid.Base.{String, ◌<>◌, not, Option, none, some, List, [], ◌∷◌, ◌++◌, M, Result, NoneType}
use waydroid.Base.{pure, gets, query, for_each, then_result, ok, ◌>>=◌, ◌>>◌}
use waydroid.Base.{contains, string_eq, if◌then◌else◌}
use waydroid.Base.Dict.{Dict, item}
use waydroid.Host.{Host}
use waydroid.Run.{run_unchecked}

unfoldable pub system_devices : List String
system_devices =
    "/dev/Vcodec" ∷ "/dev/MTK_SMI" ∷ "/dev/mdp_sync" ∷ "/dev/mtk_cmdq" ∷ "/dev/pvr_sync"
    ∷ "/sys/kernel/debug/sync/sw_sync" ∷ []

unfoldable pub app_devices : List String
app_devices = "/dev/ashmem" ∷ "/dev/ion" ∷ "/dev/graphics" ∷ "/dev/sw_sync" ∷ []

unfoldable pub path_mode : String → String → String
path_mode mode path = if contains system_devices path then "660" else mode

-- `session["user_id"] + ":" + session["group_id"]`
unfoldable pub owner_of : Dict String String → Result String
owner_of session =
    then_result (item "user_id" session) (λ user_id.
      then_result (item "group_id" session) (λ group_id. ok (user_id <> ":" <> group_id)))

module _ (H : Host) where
  open H use {State}

  -- The nodes when no list is given.
  unfoldable pub default_devices : State → List String
  default_devices s =
      app_devices
      ++ (H.glob "/dev/dri/renderD*" s
          ++ (H.glob "/dev/fb*" s
              ++ (H.glob "/dev/video*" s ++ (H.glob "/dev/dma_heap/*" s ++ system_devices))))

  -- An empty session is no session: `if session`.
  chown : Option (Dict String String) → String → M State NoneType
  chown none path = pure tt
  chown (some []) path = pure tt
  chown (some (entry ∷ rest)) path = do
    owner ← query (λ _. owner_of (entry ∷ rest))
    run_unchecked H ("chown" ∷ owner ∷ "-R" ∷ path ∷ [])
    pure tt

  -- One round of the loop.
  unfoldable pub permit : String → Option (Dict String String) → String → M State NoneType
  unfolding chown
  permit mode session path = do
    exists ← gets (H.exists path)
    if not exists then pure tt else (do
      chown session path
      run_unchecked H ("chmod" ∷ path_mode mode path ∷ "-R" ∷ path ∷ [])
      pure tt)

  unfoldable pub set_permissions :
      List String → String → Option (Dict String String) → M State NoneType
  set_permissions [] mode session = do
    devices ← gets default_devices
    for_each devices (permit mode session)
  set_permissions (path ∷ paths) mode session = for_each (path ∷ paths) (permit mode session)
