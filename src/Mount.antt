-- ===== src/Mount.antt =====
-- tools/helpers/mount.py: what is mounted, and mounting and unmounting. `/proc/mounts` is a file of
-- the host, and `mount` and `umount` are commands that it runs.

pub mod Order
pub mod Laws
use Prim.Native.Char.{code}
use waydroid.Base.{String, ◌<>◌, Bool, true, false, not, ◌||◌, Option, none, some}
use waydroid.Base.{List, [], ◌∷◌, ◌++◌, starts_with, M, Result, ok, raised, NoneType, pure, raise}
use waydroid.Base.{
  gets, query, then_result, runtime_error, index_error, when, for_each, ◌>>=◌, ◌>>◌,
}
use waydroid.Base.{◌==◌, string_eq, nat_eq, ltb, if◌then◌else◌}
use waydroid.Base.Text.{words, lines, join, ends_with, remove_suffix}
use waydroid.Host.{Host}
use waydroid.Run.{run}
use waydroid.Version.{versiontuple, kernel_version, le_tuple}

-- `s <= t`, by code points
unfoldable pub text_le : String → String → Bool
text_le String.[] t = true
text_le (String.◌∷◌ c s) String.[] = false
text_le (String.◌∷◌ c s) (String.◌∷◌ d t) =
    if ltb (code c) (code d) then true else if code c == code d then text_le s t else false

insert_desc : String → List String → List String
insert_desc x [] = x ∷ []
insert_desc x (y ∷ ys) = if text_le y x then x ∷ y ∷ ys else y ∷ insert_desc x ys

-- `ret.sort(reverse=True)`
unfoldable pub sort_reverse : List String → List String
unfolding insert_desc
sort_reverse [] = []
sort_reverse (x ∷ xs) = insert_desc x (sort_reverse xs)

-- One line of `/proc/mounts` against a folder; a blank line has no first word.
line_matches : String → List String → Result Bool
line_matches folder [] = raised (index_error "list index out of range")
line_matches folder (device ∷ []) = ok (device == folder)
line_matches folder (device ∷ point ∷ _) = ok (point == folder || device == folder)

any_line : String → List String → Result Bool
unfolding line_matches
any_line folder [] = ok false
any_line folder (line ∷ rest) =
    let later = any_line folder rest in
    then_result (line_matches folder (words line)) (λ found. if found then ok true else later)

-- What a kernel appends to the name of a mount point that was deleted: `\040(deleted)`.
abbrev deleted_str : String
deleted_str = "\\040(deleted)"

-- The mount point of a line, without the mark.
clean : String → String
clean point = if ends_with point deleted_str then remove_suffix point deleted_str else point

select : String → String → String → List String → Result (List String)
unfolding clean
select source prefix line (device ∷ point ∷ _) =
    ok (if starts_with point prefix then clean point ∷ [] else [])
select source prefix line _ =
    raised (runtime_error ("Failed to parse line in " <> source <> ": " <> line))

unfoldable pub points : String → String → List String → Result (List String)
unfolding select
points source prefix [] = ok []
points source prefix (line ∷ rest) =
    then_result (select source prefix line (words line))
      (λ found. then_result (points source prefix rest) (λ later. ok (found ++ later)))

module _ (H : Host) where
  open H use {State}

  unfoldable pub ismount : String → State → Result Bool
  unfolding any_line
  ismount folder s =
      let target = H.real_path (H.real_path folder s) s in
      then_result (H.read "/proc/mounts" s) (λ text. any_line target (lines text))

  unfoldable pub umount_all_list : String → String → State → Result (List String)
  umount_all_list prefix source s = then_result (H.read source s) (λ text.
      then_result (points source (H.real_path prefix s) (lines text))
        (λ found. ok (sort_reverse found)))

  check_gone : String → M State NoneType
  check_gone point = do
    mounted ← query (ismount point)
    when mounted (raise (runtime_error ("Failed to umount: " <> point)))

  unfoldable pub umount_all : String → M State NoneType
  unfolding check_gone
  umount_all folder = do
    all_list ← query (umount_all_list folder "/proc/mounts")
    for_each all_list (λ point. run H ("umount" ∷ point ∷ []))
    for_each all_list check_gone

  -- A folder that is missing is made, or the mount fails.
  need_folder : Bool → String → M State NoneType
  need_folder create_folders path = do
    exists ← gets (H.exists path)
    if exists
        then pure tt
        else if create_folders
        then run H ("mkdir" ∷ "-p" ∷ path ∷ [])
        else raise (runtime_error ("Mount failed, folder does not exist: " <> path))

  -- The test at the end of `bind` and of `mount`.
  verify : String → String → M State NoneType
  verify source destination = do
    mounted ← query (ismount destination)
    when (not mounted) (raise (runtime_error ("Mount failed: " <> source <> " -> " <> destination)))

  bind_now : String → String → Bool → M State NoneType
  unfolding need_folder verify
  bind_now source destination create_folders = do
    for_each (source ∷ destination ∷ []) (need_folder create_folders)
    run H ("mount" ∷ "-o" ∷ "bind" ∷ source ∷ destination ∷ [])
    verify source destination

  unfoldable pub bind : String → String → Bool → Bool → M State NoneType
  unfolding bind_now
  bind source destination create_folders umount = do
    mounted ← query (ismount destination)
    if mounted
        then (if umount
            then umount_all destination >> bind_now source destination create_folders
            else pure tt)
        else bind_now source destination create_folders

  create_empty : String → Bool → String → M State NoneType
  create_empty destination create_folders parent = do
    is_dir ← gets (H.is_dir parent)
    when (if create_folders then not is_dir else false) (run H ("mkdir" ∷ "-p" ∷ parent ∷ []))
    run H ("touch" ∷ destination ∷ [])

  -- `parent` is `os.path.dirname(destination)`.
  unfoldable pub bind_file : String → String → Bool → String → M State NoneType
  unfolding create_empty
  bind_file source destination create_folders parent = do
    mounted ← query (ismount destination)
    exists ← gets (H.exists destination)
    if mounted then pure tt else do
      when (not exists) (create_empty destination create_folders parent)
      run H ("mount" ∷ "-o" ∷ "bind" ∷ source ∷ destination ∷ [])

  mount_options : Bool → List String → List String
  mount_options readonly options = if readonly then "ro" ∷ options else options

  flag_if : Bool → String → String → List String
  flag_if given flag value = if given then flag ∷ value ∷ [] else []

  is_nonempty : List String → Bool
  is_nonempty [] = false
  is_nonempty (_ ∷ _) = true

  mount_args : Option String → Bool → List String → List String
  unfolding mount_options flag_if is_nonempty
  mount_args none readonly options =
      let opts = mount_options readonly options in flag_if (is_nonempty opts) "-o" (join "," opts)
  mount_args (some mount_type) readonly options =
      let opts = mount_options readonly options in
      "-t" ∷ mount_type ∷ flag_if (is_nonempty opts) "-o" (join "," opts)

  mount_now : String → String → Bool → Bool → Option String → List String → M State NoneType
  unfolding need_folder verify mount_args
  mount_now source destination create_folders readonly mount_type options = do
    need_folder create_folders destination
    run H ("mount" ∷ (mount_args mount_type readonly options ++ (source ∷ destination ∷ [])))
    verify source destination

  -- `mount_type` and `options` are None and the empty list unless they are given.
  unfoldable pub mount :
      String → String → Bool → Bool → Bool → Option String → List String → Bool → M State NoneType
  unfolding mount_now
  mount source destination create_folders umount readonly mount_type options force = do
    mounted ← query (ismount destination)
    if mounted
        then (if umount
            then umount_all destination
              >> mount_now source destination create_folders readonly mount_type options
            else if force
            then mount_now source destination create_folders readonly mount_type options
            else pure tt)
        else mount_now source destination create_folders readonly mount_type options

  upper_dirs : Option (String × String) → List String
  upper_dirs none = []
  upper_dirs (some (upper, under)) = upper ∷ under ∷ []

  upper_options : Option (String × String) → List String
  upper_options none = []
  upper_options (some (upper, under)) = ("upperdir=" <> upper) ∷ ("workdir=" <> under) ∷ []

  -- `kernel_version() >= versiontuple("4.17")`
  has_xino : State → Result Bool
  has_xino s =
      then_result (kernel_version (H.release s))
        (λ kernel. then_result (versiontuple "4.17") (λ needed. ok (le_tuple needed kernel)))

  -- `upper` holds `upper_dir` and `work_dir`, which are given together.
  unfoldable pub mount_overlay :
      List String → String → Option (String × String) → Bool → Bool → M State NoneType
  unfolding upper_dirs upper_options has_xino need_folder
  mount_overlay lower_dirs destination upper create_folders readonly = do
    xino ← query has_xino
    for_each (lower_dirs ++ upper_dirs upper) (need_folder create_folders)
    mount "overlay" destination create_folders false readonly (some "overlay")
        ((("lowerdir=" <> join ":" lower_dirs) ∷ upper_options upper)
          ++ (if xino then "xino=off" ∷ [] else []))
        true
