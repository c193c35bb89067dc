-- ===== src/Lxc/Shell.antt =====
-- tools/helpers/lxc.py: `shell` and `logcat`, which run a command in the container.
use waydroid.Base.{
  String, ◌<>◌, Bool, false, not, ◌||◌, Option, none, some, List, [], ◌∷◌, ◌++◌, Result, ok, raised,
}
use waydroid.Base.{M, NoneType, pure, query, value_error, except_any, try_finally}
use waydroid.Base.{◌>>=◌, ◌>>◌, ◌==◌, string_eq, nat_eq, if◌then◌else◌}
use waydroid.Base.Dict
use waydroid.Base.Dict.{Dict}
use waydroid.Base.Text.{has_text, splitlines, split_once, join}
use waydroid.Config.{lxc_path}
use waydroid.Base.Int.{is_zero}
use waydroid.Host.{Host}
use waydroid.Lxc.Control.{status, freeze, unfreeze}

-- `ANDROID_ENV`
unfoldable pub android_env : Dict String String
android_env =
    (
      "PATH",
      "/product/bin:/apex/com.android.runtime/bin:/apex/com.android.art/bin:/system_ext/bin:/system/bin:/system/xbin:/odm/bin:/vendor/bin:/vendor/xbin",
    )
    ∷ ("ANDROID_ROOT", "/system")
    ∷ ("ANDROID_DATA", "/data")
    ∷ ("ANDROID_STORAGE", "/storage")
    ∷ ("ANDROID_ART_ROOT", "/apex/com.android.art")
    ∷ ("ANDROID_I18N_ROOT", "/apex/com.android.i18n")
    ∷ ("ANDROID_TZDATA_ROOT", "/apex/com.android.tzdata")
    ∷ ("ANDROID_RUNTIME_ROOT", "/apex/com.android.runtime")
    ∷ (
      "BOOTCLASSPATH",
      "/apex/com.android.art/javalib/core-oj.jar:/apex/com.android.art/javalib/core-libart.jar:/apex/com.android.art/javalib/core-icu4j.jar:/apex/com.android.art/javalib/okhttp.jar:/apex/com.android.art/javalib/bouncycastle.jar:/apex/com.android.art/javalib/apache-xml.jar:/system/framework/framework.jar:/system/framework/ext.jar:/system/framework/telephony-common.jar:/system/framework/voip-common.jar:/system/framework/ims-common.jar:/system/framework/framework-atb-backward-compatibility.jar:/apex/com.android.conscrypt/javalib/conscrypt.jar:/apex/com.android.media/javalib/updatable-media.jar:/apex/com.android.mediaprovider/javalib/framework-mediaprovider.jar:/apex/com.android.os.statsd/javalib/framework-statsd.jar:/apex/com.android.permission/javalib/framework-permission.jar:/apex/com.android.sdkext/javalib/framework-sdkextensions.jar:/apex/com.android.wifi/javalib/framework-wifi.jar:/apex/com.android.tethering/javalib/framework-tethering.jar",
    )
    ∷ []

-- `_, k, v = line.split(' ', 2)`
unfoldable pub split_export : String → Result (String × String)
split_export line = elim (split_once " " line) [
  | none ↦ raised (value_error "not enough values to unpack")
  | some (_, behind) ↦ elim (split_once " " behind) [
    | none ↦ raised (value_error "not enough values to unpack")
    | some (k, v) ↦ ok (k, v)
  ]
]

unfoldable pub is_allowed : String → Bool
is_allowed k = has_text k "CLASSPATH" || has_text k "SYSTEMSERVER"

-- The loop over the exported variables. Those before a line that cannot be read stay.
unfoldable pub add_exports : List String → Dict String String → Dict String String
add_exports [] local_env = local_env
add_exports (line ∷ rest) local_env = elim (split_export line) [
  | raised _ ↦ local_env
  | ok (k, v) ↦
      let added = add_exports rest (Dict.insert k v local_env) in
      let passed = add_exports rest local_env in if is_allowed k then added else passed
]

unfoldable pub set_vars : Dict String String → List String
set_vars [] = []
set_vars ((k, v) ∷ rest) = "--set-var" ∷ (k <> ("=" <> v)) ∷ set_vars rest

-- What the command line gives `shell`; an identity is the text of its number.
pub record ShellArguments : Type 0 where
  pub uid : Option String
  pub gid : Option String
  pub nolsm : Bool
  pub allcaps : Bool
  pub nocgroup : Bool
  pub context : Option String
  pub command : List String

abbrev pub word_if : Bool → String → List String
word_if b word = if b then word ∷ [] else []

unfoldable pub identity_options : Option String → Option String → List String
identity_options none none = []
identity_options none (some gid) = ("--gid=" <> gid) ∷ []
identity_options (some uid) none = ("--uid=" <> uid) ∷ ("--gid=" <> uid) ∷ []
identity_options (some uid) (some gid) = ("--uid=" <> uid) ∷ ("--gid=" <> gid) ∷ []

-- The words are put together with a bar between them.
unfoldable pub privilege_options : ShellArguments → List String
privilege_options args = word_if (args.nolsm || args.allcaps || args.nocgroup) (
    "--elevated-privileges="
    <> join "|" (
        word_if args.nolsm "LSM" ++ (word_if args.allcaps "CAP" ++ word_if args.nocgroup "CGROUP")))

unfoldable pub context_options : ShellArguments → List String
context_options args = elim args.context [
  | none ↦ []
  | some context ↦ word_if (not args.nolsm) ("--context=" <> context)
]

unfoldable pub command_of : List String → List String
command_of [] = "/system/bin/sh" ∷ []
command_of (word ∷ words) = word ∷ words

abbrev attach : List String
attach = "lxc-attach" ∷ "-P" ∷ lxc_path ∷ "-n" ∷ "waydroid" ∷ "--clear-env" ∷ []

-- The whole command, for the options of the environment.
unfoldable pub attach_command : ShellArguments → List String → List String
attach_command args env =
    attach
    ++ (env
        ++ (identity_options args.uid args.gid
            ++ (privilege_options args
                ++ (context_options args ++ ("--" ∷ command_of args.command)))))

module _ (H : Host) where
  open H use {State}

  unfoldable pub local_env : M State (Dict String String)
  local_env =
      except_any
        (do
          (code, out) ←
              H.process
                (attach ++ ("--" ∷ "/system/bin/cat" ∷ "/data/system/environ/classpath" ∷ []))
          pure (if is_zero code then add_exports (splitlines out) android_env else android_env))
        (λ _. pure android_env)

  unfoldable pub android_env_attach_options : M State (List String)
  android_env_attach_options = do env ← local_env; pure (set_vars env)

  -- An interrupt of the command is an outcome of `run_terminal`.
  unfoldable pub run_attached : List String → M State NoneType
  run_attached command = do
    perms ← query H.stdout_mode
    try_finally (H.run_terminal command) (H.chmod_stdout perms)

  -- What is done with a container that runs, or has just been thawed.
  unfoldable pub shell_in : ShellArguments → M State NoneType
  shell_in args = do env ← android_env_attach_options; run_attached (attach_command args env)

  unfoldable pub shell : ShellArguments → M State NoneType
  shell args = do
    state ← status H
    if state == "FROZEN"
        then unfreeze H >> (shell_in args >> freeze H)
        else if state == "RUNNING"
        then shell_in args
        else pure tt

  unfoldable pub logcat : List String → M State NoneType
  logcat words = shell (record {
    uid = none;
    gid = none;
    nolsm = false;
    allcaps = false;
    nocgroup = false;
    context = none;
    command = "/system/bin/logcat" ∷ words;
  })
