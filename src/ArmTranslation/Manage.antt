-- ===== src/ArmTranslation/Manage.antt =====
-- tools/actions/arm_translation.py: installing the layer, and removing it.
use waydroid.Arch
use waydroid.ArmTranslation.{
  arm_translation_dir, default_archive_url, default_archive_md5, is_installed,
}
use waydroid.Base.{String, ◌<>◌, Bool, not, ◌&&◌, Option, none, some, List, [], ◌∷◌}
use waydroid.Base.{
  M, NoneType, Result, pure, raise, gets, modify, query, runtime_error, when, for_each,
}
use waydroid.Base.{◌>>=◌, ◌>>◌, ◌==◌, contains, string_eq, if◌then◌else◌}
use waydroid.Base.Text.{path_join}
use waydroid.Config
use waydroid.Config.{load}
use waydroid.Host.{Host}
use waydroid.Lxc.BaseProps.{Settings, make_base_props}
use waydroid.Release.Package.{candidates, sort_deepest}
use waydroid.Release.Tools.{Member}

-- What the command asks of `tarfile`, `zipfile`, `hashlib`, `shutil` and `os`, beside the host.
pub record Archives (H : Host) : Type 0 where
  pub md5 : String → Host.State H → Result String
  pub is_tarfile : String → Host.State H → Bool
  pub is_zipfile : String → Host.State H → Bool
  -- `extractall`, with the filter for data where there is one
  pub extract_tar : String → String → M (Host.State H) NoneType
  pub extract_zip : String → String → M (Host.State H) NoneType
  pub infolist : String → Host.State H → Result (List Member)
  pub chmod_as : Member → String → M (Host.State H) NoneType
  pub walk : String → Host.State H → List (String × List String × List String)
  -- `shutil.rmtree(path, ignore_errors=True)`, and `copytree(..., dirs_exist_ok=True)`
  pub remove_tree : String → Host.State H → Host.State H
  pub copy_into : String → String → M (Host.State H) NoneType
  pub abspath : String → Host.State H → String

-- What the command line gives `install`; an empty text is a value that was not given.
pub record Source : Type 0 where
  pub source : String
  pub archive : String
  pub url : String

abbrev pub extract_dir : String
extract_dir = "/var/lib/waydroid/arm-translation.extract"

module _ (H : Host) (A : Archives H) where
  open H use {State}

  unfoldable pub extract_archive : String → String → M State NoneType
  extract_archive archive_path dest = do
    tar ← gets (A.is_tarfile archive_path)
    zip ← gets (A.is_zipfile archive_path)
    if tar
        then A.extract_tar archive_path dest
        else if zip
        then (do
          A.extract_zip archive_path dest
          members ← query (A.infolist archive_path)
          for_each members (λ member.
              when (member.has_mode && not member.is_dir)
                (A.chmod_as member (path_join dest member.filename))))
        else raise (runtime_error ("Unsupported archive format: " <> archive_path))

  unfoldable pub has_artifacts : State → String → Bool
  has_artifacts s candidate = H.is_dir (candidate <> "/lib64") s && H.is_dir (candidate <> "/etc") s

  unfoldable pub first_candidate : State → List String → Option String
  first_candidate s [] = none
  first_candidate s (candidate ∷ rest) =
      let later = first_candidate s rest in
      if has_artifacts s candidate then some candidate else later

  -- `_find_prebuilts_root`
  unfoldable pub find_root : String → State → Option String
  find_root extracted s =
      first_candidate s (sort_deepest (extracted ∷ candidates (A.walk extracted s)))

  unfoldable pub copy_entry : String → String → String → M State NoneType
  copy_entry root system_dir name = do
    let source_path = path_join root name
    is_dir ← gets (H.is_dir source_path)
    if is_dir
        then A.copy_into source_path (path_join system_dir name)
        else H.copy source_path (path_join system_dir name)

  unfoldable pub copy_to_system_tree : String → M State NoneType
  copy_to_system_tree root = do
    H.make_dirs (arm_translation_dir <> "/system")
    names ← gets (H.list_dir root)
    for_each names (copy_entry root (arm_translation_dir <> "/system"))

  unfoldable pub settings_of_config : M State Settings
  settings_of_config = do
    cfg ← load H
    arch ← Config.get "arch" cfg
    images_path ← Config.get "images_path" cfg
    vendor_type ← Config.get "vendor_type" cfg
    system_ota ← Config.get "system_ota" cfg
    vendor_ota ← Config.get "vendor_ota" cfg
    pure (record {
      vendor_type = vendor_type;
      images_path = images_path;
      system_ota = system_ota;
      vendor_ota = vendor_ota;
    })

  unfoldable pub regenerate_base_props : M State NoneType
  regenerate_base_props = do settings ← settings_of_config; make_base_props H settings

  -- From a directory of the user's.
  unfoldable pub place_source : String → M State NoneType
  place_source given = do
    source ← gets (A.abspath given)
    is_dir ← gets (H.is_dir source)
    when (not is_dir) (raise (runtime_error ("Source is not a directory: " <> given)))
    root ← gets (find_root source)
    elim root [
      | none ↦ raise (
          runtime_error (
            "Source does not look like a /system artifact tree (no lib64/ and etc/ directories): "
            <> given))
      | some r ↦ copy_to_system_tree r
    ]

  -- What is done with the tree that was extracted.
  unfoldable pub place_tree : String → Option String → M State NoneType
  place_tree message none = modify (A.remove_tree extract_dir) >> raise (runtime_error message)
  place_tree message (some root) = copy_to_system_tree root >> modify (A.remove_tree extract_dir)

  unfoldable pub place_archive : String → String → M State NoneType
  place_archive message archive = do
    modify (A.remove_tree extract_dir)
    H.make_dirs extract_dir
    extract_archive archive extract_dir
    root ← gets (find_root extract_dir)
    place_tree message root

  unfoldable pub verify : String → M State NoneType
  verify archive = do
    sum ← query (A.md5 archive)
    when (not (sum == default_archive_md5))
        (raise (runtime_error "Downloaded archive failed the integrity check; refusing to install"))

  -- `helpers.http.download` is `download_cached` of the host; without `allow_404` it has no None.
  unfoldable pub place_default : M State NoneType
  place_default = do
    archive ← H.download_cached default_archive_url "arm_translation"
    verify archive
    place_archive
        "The default archive does not contain a /system artifact tree (no lib64/ and etc/ directories)"
        archive

  unfoldable pub fetch_given : String → String → M State String
  fetch_given archive url = if url == "" then pure archive else (do
    fetched ← H.download_cached url "arm_translation"
    when (url == default_archive_url) (verify fetched)
    pure fetched)

  unfoldable pub place_given : String → String → M State NoneType
  place_given archive url = do
    given ← fetch_given archive url
    place_archive
        "The archive does not contain a /system artifact tree (no lib64/ and etc/ directories)"
        given

  unfoldable pub place : Source → M State NoneType
  place args =
      if not (args.source == "")
      then place_source args.source
      else if not (args.archive == "" && args.url == "")
      then place_given args.archive args.url
      else place_default

  -- Files with another layout are removed.
  unfoldable pub demand_layout : M State NoneType
  demand_layout = do
    installed ← gets (is_installed H)
    if installed
        then pure tt
        else modify (A.remove_tree arm_translation_dir)
          >> raise (
              runtime_error
                "The provided files are missing the expected layout; expected at least system/lib64/libndk_translation.so, system/lib64/arm64/libc.so and system/etc/init/ndk_translation.rc. Nothing was installed.")

  unfoldable pub install : Source → M State NoneType
  install args = do
    host ← query (Arch.host H)
    when (not (contains ("x86" ∷ "x86_64" ∷ []) host)) (
        raise (
          runtime_error
            ("ARM translation is only needed on x86/x86_64 hosts, this host is " <> host)))
    modify (A.remove_tree arm_translation_dir)
    place args
    demand_layout
    regenerate_base_props

  unfoldable pub uninstall : M State NoneType
  uninstall = do
    is_dir ← gets (H.is_dir arm_translation_dir)
    if is_dir then modify (A.remove_tree arm_translation_dir) >> regenerate_base_props else pure tt
