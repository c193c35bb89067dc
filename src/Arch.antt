-- ===== src/Arch.antt =====
-- tools/helpers/arch.py: the architecture of the images for a host.
use waydroid.Base.{
  String, ◌<>◌, ◌&&◌, not, none, some, [], ◌∷◌, starts_with, Result, ok, raised, value_error,
  then_result,
}
use waydroid.Base.{◌==◌, string_eq, if◌then◌else◌}
use waydroid.Base.Dict
use waydroid.Base.Dict.{Dict}
use waydroid.Base.Text.{has_text}
use waydroid.Host.{Host}

-- `mapping`
unfoldable pub architectures : Dict String String
architectures =
    ("i686", "x86")
    ∷ ("x86_64", "x86_64")
    ∷ ("aarch64", "arm64")
    ∷ ("armv7l", "arm")
    ∷ ("armv8l", "arm")
    ∷ []

-- What the CPU's flags make of an x86 target.
unfoldable pub remap_x86 : String → String → Result String
remap_x86 target cpuinfo =
    if not (has_text cpuinfo "ssse3")
    then raised (value_error "x86/x86_64 CPU must support SSSE3!")
    else if target == "x86_64" && not (has_text cpuinfo "sse4_2")
    then ok "x86"
    else ok target

module _ (H : Host) where
  open H use {State}

  unfoldable pub maybe_remap : String → State → Result String
  maybe_remap target s =
      if starts_with target "x86"
      then then_result (H.read "/proc/cpuinfo" s) (remap_x86 target)
      else if target == "arm64" && H.is_32bit s
      then ok "arm"
      else if target == "arm64" && not (H.is_32bit_capable s)
      then ok "arm64_only"
      else ok target

  unfoldable pub host : State → Result String
  host s = elim (Dict.lookup (H.machine_name s) architectures) [
    | none ↦ raised (
        value_error
          ("platform.machine '" <> (H.machine_name s <> "' architecture is not supported")))
    | some target ↦ maybe_remap target s
  ]
