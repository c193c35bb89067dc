-- ===== src/Props.antt =====
-- tools/helpers/props.py: properties of the host and of `.prop` files. `get` and `set`, which ask the
-- running container over binder, are not modelled.
use waydroid.Base.{String, ◌<>◌, Bool, ◌||◌, none, some, List, [], ◌∷◌}
use waydroid.Base.{starts_with, M, Result, ok, NoneType, then_result, gets, when, ◌>>=◌}
use waydroid.Base.{◌==◌, string_eq, if◌then◌else◌}
use waydroid.Base.Text.{strip, lines, splitlines, partition, split_once, drop_text}
use waydroid.Base.Text.{ends_with, remove_suffix}
use waydroid.Base.Dict
use waydroid.Base.Dict.{Dict}
use waydroid.Host.{Host}
use waydroid.Run.{run}

-- `len(line) == 0 or line[0] == "#"`
unfoldable pub is_comment : String → Bool
is_comment line = line == "" || starts_with line "#"

-- The loop of `file_get` over the lines of the file.
unfoldable pub value_of : String → List String → String
value_of prop [] = ""
value_of prop (line ∷ rest) =
    let later = value_of prop rest in
    let text = strip line in
    let (k, v) = partition "=" text in
    if is_comment text then later else if k == prop then v else later

-- One line of `getprop`, added to the properties that have the prefix.
add_line : String → String → Dict String String → Dict String String
add_line prefix line result =
    let read : Dict String String = elim (split_once "]: [" line) [
      | none ↦ result
      | some (before, behind) ↦
          let key = drop_text 1 before in
          let value = if ends_with behind "]" then remove_suffix behind "]" else behind in
          if starts_with key prefix then Dict.insert key value result else result
    ] in
    if starts_with line ("[" <> prefix) then read else result

add_lines : String → List String → Dict String String → Dict String String
unfolding add_line
add_lines prefix [] result = result
add_lines prefix (line ∷ rest) result = add_lines prefix rest (add_line prefix (strip line) result)

module _ (H : Host) where
  open H use {State}

  unfoldable pub file_get : String → String → State → Result String
  file_get file prop s = then_result (H.read file s) (λ text. ok (value_of prop (lines text)))

  unfoldable pub host_get : String → State → String
  host_get prop s = if H.which "getprop" s then strip (H.getprop prop s) else ""

  unfoldable pub host_list : String → State → Dict String String
  unfolding add_lines
  host_list prefix s =
      if H.which "getprop" s then add_lines prefix (splitlines (H.getprop_list s)) [] else []

  unfoldable pub host_set : String → String → M State NoneType
  host_set prop value = do
    found ← gets (H.which "setprop")
    when found (run H ("setprop" ∷ prop ∷ value ∷ []))
