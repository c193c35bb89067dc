-- ===== src/Gpu.antt =====
-- tools/helpers/gpu.py: the render node that the container uses, and the driver of Vulkan.
use waydroid.Base.{String, ◌<>◌, not, none, some, List, [], ◌∷◌, ◌++◌, Result, ok, raised, os_error}
use waydroid.Base.{then_result, ◌==◌, string_eq, if◌then◌else◌}
use waydroid.Base.Text.{split}
use waydroid.Config
use waydroid.Config.{loaded}
use waydroid.Base.{M, Bool, false, pure, gets, query, except_any, ◌>>=◌}
use waydroid.Base.Dict
use waydroid.Base.Dict.{Dict}
use waydroid.Base.Int.{ℤ, ltb_ℤ}
use waydroid.Images.Update.{to_int}
use waydroid.Run.{run_output_unchecked}
use waydroid.Host.{Host}
use waydroid.Mount.{sort_reverse}
use waydroid.Props.{file_get}

last_of : String → List String → String
last_of x [] = x
last_of x (y ∷ rest) = last_of y rest

-- `os.path.basename`
unfoldable pub basename : String → String
unfolding last_of
basename path = last_of path (split "/" path)

reverse : List String → List String
reverse [] = []
reverse (x ∷ xs) = reverse xs ++ (x ∷ [])

-- `sorted(xs)`
unfoldable pub sorted : List String → List String
unfolding reverse
sorted xs = reverse (sort_reverse xs)

-- `mapping`
unfoldable pub vulkan_drivers : Dict String String
vulkan_drivers =
    ("i915", "intel")
    ∷ ("xe", "intel")
    ∷ ("amdgpu", "radeon")
    ∷ ("panfrost", "panfrost")
    ∷ ("msm", "freedreno")
    ∷ ("msm_dpu", "freedreno")
    ∷ ("vc4", "broadcom")
    ∷ ("nouveau", "nouveau")
    ∷ []

module _ (H : Host) where
  open H use {State}

  unfoldable pub get_kernel_driver : String → State → Result String
  get_kernel_driver dev = file_get H ("/sys/class/drm/" <> (dev <> "/device/uevent")) "DRIVER"

  -- The first of the nodes whose driver is supported, `unsupported` being nvidia.
  unfoldable pub first_supported : List String → State → Result String
  first_supported [] s = ok ""
  first_supported (node ∷ rest) s =
      let later = first_supported rest s in
      then_result (get_kernel_driver (basename node) s)
        (λ driver. if driver == "nvidia" then later else ok node)

  -- The render node of `getDriNode`; the card that it belongs to is not modelled.
  unfoldable pub render_node : State → Result String
  render_node s = then_result (loaded H s) (λ cfg.
      let node : String = elim (Config.get? "drm_device" cfg) [ none ↦ "" | some n ↦ n ] in
      if node == ""
      then first_supported (sorted (H.glob "/dev/dri/renderD*" s)) s
      else if not (H.exists node s)
      then raised (os_error ("The specified drm_device " <> (node <> " does not exist")))
      else first_supported (node ∷ []) s)

  unfoldable pub get_minor : String → State → Result String
  get_minor dev = file_get H ("/sys/class/drm/" <> (dev <> "/uevent")) "MINOR"

  -- The first of the cards, if there is one.
  unfoldable pub get_card_from_render : String → State → String
  get_card_from_render dev s =
      elim (sorted (H.glob ("/sys/class/drm/" <> (dev <> "/device/drm/card*")) s)) [
        | [] ↦ ""
        | card ∷ _ ↦ "/dev/dri/" <> basename card
      ]

  -- The generation of an Intel GPU, by `awk` on what the kernel tells of it.
  unfoldable pub generation : String → M State ℤ
  generation dev = do
    card ← gets (λ s. basename (get_card_from_render dev s))
    minor ← query (get_minor card)
    text ← run_output_unchecked H (
        "awk"
        ∷ "/^graphics version:|^gen:/ {print $NF}"
        ∷ ("/sys/kernel/debug/dri/" <> (minor <> "/i915_capabilities"))
        ∷ [])
    query (λ _. to_int text)

  -- The Intel GPUs before the ninth generation have a driver of their own.
  unfoldable pub is_old_intel : String → M State Bool
  is_old_intel dev = except_any (do gen ← generation dev; pure (ltb_ℤ gen 9)) (λ _. pure false)

  unfoldable pub get_vulkan_driver : String → M State String
  get_vulkan_driver dev = do
    kernel_driver ← query (get_kernel_driver dev)
    old ← if kernel_driver == "i915" then is_old_intel dev else pure false
    pure (if old then "intel_hasvk" else Dict.get_or kernel_driver "" vulkan_drivers)
