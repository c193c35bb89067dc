-- ===== src/Lxc/Setup.antt =====
-- tools/helpers/lxc.py: `set_lxc_config`, which writes the container's configuration.
use waydroid.Base.{ℕ, String, ◌<>◌, Bool, true, false, ◌&&◌, none, some, List, [], ◌∷◌, ◌++◌, map}
use waydroid.Base.{
  M, NoneType, Result, ok, raised, pure, raise, gets, query, os_error, value_error, index_error,
  when, except_any,
}
use waydroid.Base.{◌>>=◌, ◌>>◌, ◌==◌, string_eq, nat_eq, leb, if◌then◌else◌}
use waydroid.Base.Int.{pos, negsuc, int}
use waydroid.Base.Text.{join, has_text, unlines}
use waydroid.Config.{work}
use waydroid.Drivers.{BinderNodes}
use waydroid.Base.Int.{is_zero}
use waydroid.Host.{Host}
use waydroid.Lxc.Nodes.{generate_nodes_lxc_config}
use waydroid.Run.{run, run_unchecked, run_output}

-- `s[0]`
unfoldable pub first_char : String → Result String
first_char String.[] = raised (index_error "string index out of range")
first_char (String.◌∷◌ c s) = ok (String.◌∷◌ c "")

-- `int(version_str[0])`: a digit, for the release is not negative.
unfoldable pub digit_value : String → Result ℕ
digit_value text = elim (int text) [
  | none ↦ raised (value_error text)
  | some (pos n) ↦ ok n
  | some (negsuc _) ↦ raised (value_error text)
]

abbrev pub lxc_apparmor_profile : String
lxc_apparmor_profile = "lxc-waydroid"

-- The directory of the container's files.
abbrev pub container_path : String
container_path = "/var/lib/waydroid/lxc/waydroid"

-- `"{0}"`
abbrev pub quoted : String → String
quoted w = "\"" <> (w <> "\"")

module _ (H : Host) where
  open H use {State}

  unfoldable pub get_lxc_version : M State ℕ
  get_lxc_version = do
    found ← gets (H.which "lxc-info")
    if found
        then (do
          version_str ← run_output H ("lxc-info" ∷ "--version" ∷ [])
          first ← query (λ _. first_char version_str)
          query (λ _. digit_value first))
        else pure 0

  -- A command that is run where it is found, and tells by its exit code.
  unfoldable pub asks : String → List String → M State Bool
  asks name arguments = do
    found ← gets (H.which name)
    if found
        then (do code ← run_unchecked H (name ∷ arguments); pure (is_zero code))
        else pure false

  unfoldable pub get_apparmor_status : M State Bool
  get_apparmor_status = do
    by_aa ← asks "aa-enabled" ("--quiet" ∷ [])
    enabled ← if by_aa then pure true else asks "systemctl" ("is-active" ∷ "-q" ∷ "apparmor" ∷ [])
    except_any
        (do
          profiles ← query (H.read "/sys/kernel/security/apparmor/profiles")
          pure (enabled && has_text profiles lxc_apparmor_profile))
        (λ _. pure false)

  -- The snippet of an LXC version from 3 on, if there is one.
  unfoldable pub snippet : String → ℕ → ℕ → String → State → List String
  snippet config_paths lxc_ver ver name s =
      if leb ver lxc_ver && H.exists (config_paths <> name) s
      then (config_paths <> name) ∷ []
      else []

  unfoldable pub config_snippets : String → ℕ → State → List String
  config_snippets config_paths lxc_ver s =
      (config_paths <> "base")
      ∷ (if leb lxc_ver 2
          then (config_paths <> "1") ∷ []
          else snippet config_paths lxc_ver 3 "3" s ++ snippet config_paths lxc_ver 4 "4" s)

  -- The shell command that puts the snippets together.
  unfoldable pub cat_command : List String → List String
  cat_command snippets =
      "sh"
      ∷ "-c"
      ∷ ("cat "
          <> (join " " (map quoted snippets) <> (" > " <> quoted (container_path <> "/config"))))
      ∷ []

  unfoldable pub write_nodes : String → BinderNodes → M State NoneType
  write_nodes vendor_type nodes = do
    lines ← query (generate_nodes_lxc_config H vendor_type nodes)
    H.write (work <> "/config_nodes") (unlines lines)
    run H ("mv" ∷ (work <> "/config_nodes") ∷ container_path ∷ [])

  unfoldable pub set_lxc_config : String → BinderNodes → M State NoneType
  set_lxc_config vendor_type nodes = do
    lxc_ver ← get_lxc_version
    when (lxc_ver == 0) (raise (os_error "LXC is not installed"))
    tools_src ← gets H.tools_src
    let config = container_path <> "/config"
    snippets ← gets (config_snippets (tools_src <> "/data/configs/config_") lxc_ver)
    run H ("mkdir" ∷ "-p" ∷ container_path ∷ [])
    run H (cat_command snippets)
    machine ← gets H.machine_name
    run H ("sed" ∷ "-i" ∷ ("s/LXCARCH/" <> (machine <> "/")) ∷ config ∷ [])
    run H (
        "sed"
        ∷ "-i"
        ∷ ("s#LXCPOSTSTOP#" <> (tools_src <> "/data/scripts/waydroid-post-stop.sh#"))
        ∷ config
        ∷ [])
    run H (
        "cp"
        ∷ "-fpr"
        ∷ (tools_src <> "/data/configs/waydroid.seccomp")
        ∷ (container_path <> "/waydroid.seccomp")
        ∷ [])
    apparmor ← get_apparmor_status
    when apparmor (
        run H (
          "sed"
          ∷ "-i"
          ∷ "-E"
          ∷ ("/lxc.aa_profile|lxc.apparmor.profile/ s/unconfined/"
              <> (lxc_apparmor_profile <> "/g"))
          ∷ config
          ∷ []))
    write_nodes vendor_type nodes
    H.touch (container_path <> "/config_session")
