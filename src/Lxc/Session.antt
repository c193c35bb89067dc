-- ===== src/Lxc/Session.antt =====
-- tools/helpers/lxc.py: the mount entries of the container's configuration, and those of a session.
use waydroid.Base.{String, ◌<>◌, Bool, true, false, not, ◌||◌, Option, none, some}
use waydroid.Base.{
  List, [], ◌∷◌, ◌++◌, M, Result, ok, raised, NoneType, query, then_result, os_error,
}
use waydroid.Base.{◌>>=◌, ◌>>◌, ◌==◌, string_eq, if◌then◌else◌}
use waydroid.Base.Text.{unlines, has_char, path_join, drop_text}
use waydroid.Base.Dict.{Dict, item}
use waydroid.ArmTranslation.{sync_to_overlay}
use waydroid.Config.{work, lxc_path}
use waydroid.Host.{Host}
use waydroid.Run.{run}

-- Without a `dist` it is `src[1:]`.
unfoldable pub dist_of : String → Option String → String
dist_of src none = drop_text 1 src
dist_of src (some dist) = dist

-- The text of an entry, in `add_node_entry`.
unfoldable pub node_entry : String → Option String → String → String → String
node_entry src dist mnt_type options =
    "lxc.mount.entry = "
    <> (src <> (" " <> (dist_of src dist <> (" " <> (mnt_type <> (" " <> options))))))

-- `any(x in src for x in ["\n", "\r"])`
unfoldable pub is_illegal : String → Bool
is_illegal src = has_char "\n" src || has_char "\r" src

abbrev pub container_xdg_runtime_dir : String
container_xdg_runtime_dir = "/run/xdg"

-- `os.path.join(defaults["container_xdg_runtime_dir"], defaults["container_wayland_display"])`
abbrev pub container_wayland_socket : String
container_wayland_socket = "/run/xdg/wayland-0"

-- `pulse_container_socket[1:]`
abbrev pub pulse_container_socket : String
pulse_container_socket = "run/xdg/pulse/native"

module _ (H : Host) where
  open H use {State}

  -- `not os.path.exists(src) or str(os.stat(src).st_uid) != session["user_id"]`
  is_foreign : String → Dict String String → State → Result Bool
  is_foreign src session s =
      if not (H.exists src s)
      then ok true
      else then_result (item "user_id" session) (λ uid. ok (not (H.owner src s == uid)))

  -- `make_entry`: the entry, or None where it returns False. Only an entry without a `dist` has
  -- the owner of its source checked.
  make_entry :
      Dict String String → State → String → Option String → String → String → Result (Option String)
  unfolding is_foreign
  make_entry session s src dist mnt_type options =
      if is_illegal src
      then ok none
      else then_result (elim dist [ none ↦ is_foreign src session s | some _ ↦ ok false ])
          (λ foreign. ok (if foreign then none else some (node_entry src dist mnt_type options)))

  -- An entry that the session cannot do without, and one that it can.
  demand : String → Result (Option String) → Result String
  demand text r = then_result r (λ o. elim o [ none ↦ raised (os_error text) | some e ↦ ok e ])

  optional : Result (Option String) → Result (List String)
  optional r = then_result r (λ o. ok (elim o [ none ↦ [] | some e ↦ e ∷ [] ]))

  unfoldable pub session_nodes : Dict String String → State → Result (List String)
  unfolding make_entry demand optional
  session_nodes session s =
      then_result
        (demand "Failed to create XDG_RUNTIME_DIR mount point"
          (make_entry session s "tmpfs" (some container_xdg_runtime_dir) "none" "create=dir 0 0"))
        λ xdg. then_result (item "xdg_runtime_dir" session) λ runtime_dir.
          then_result (item "wayland_display" session) λ display.
            then_result
              (demand "Failed to bind Wayland socket" (
                make_entry session s (H.real_path (path_join runtime_dir display) s)
                  (some (drop_text 1 (H.real_path container_wayland_socket s))) "none"
                  "rbind,create=file 0 0"))
              λ wayland. then_result (item "pulse_runtime_path" session) λ pulse_path.
                then_result
                  (optional (
                    make_entry session s (path_join pulse_path "native")
                      (some pulse_container_socket) "none" "rbind,create=file 0 0"))
                  λ pulse. then_result (item "waydroid_data" session) λ data_dir.
                    then_result
                      (demand "Failed to bind userdata"
                        (make_entry session s data_dir (some "data") "none" "rbind 0 0"))
                      λ userdata. ok (xdg ∷ wayland ∷ (pulse ++ (userdata ∷ [])))

  unfoldable pub generate_session_lxc_config : Dict String String → M State NoneType
  generate_session_lxc_config session = do
    nodes ← query (session_nodes session)
    sync_to_overlay H
    H.write (work <> "/config_session") (unlines nodes)
    run H ("mv" ∷ (work <> "/config_session") ∷ (lxc_path <> "/waydroid") ∷ [])
