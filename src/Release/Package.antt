-- ===== src/Release/Package.antt =====
-- tools/release/package.py: downloads with their checks, the package's files and `main`.
use waydroid.Base.{
  ℕ, zero, suc, String, ◌<>◌, Bool, not, ◌&&◌, Option, none, some, List, [], ◌∷◌, ◌++◌,
}
use Prim.Native.Char.{code}
use waydroid.Mount.{text_le}
use waydroid.Base.{
  M, NoneType, pure, raise, gets, modify, query, Result, ok, raised, value_error, type_error,
}
use waydroid.Base.{
  when, for_each, try_finally, ◌>>=◌, ◌>>◌, ◌==◌, string_eq, leb, nat_eq, contains, if◌then◌else◌,
}
use waydroid.Base.Text.{str, ends_with, path_join, replace, split}
use waydroid.Release.Channels.{Builds, Chosen, Stamp, number, date, text_or_empty, resolve_builds}
use waydroid.Release.Tools.{Tools}

-- `os.path.basename(path)`: what stands behind the last slash.
abbrev last_of : String → List String → String
last_of x [] = x
last_of x (y ∷ rest) = last_of y rest

unfoldable pub basename : String → String
basename path = last_of "" (split "/" path)

abbrev pub default_archive_url : String
default_archive_url =
    "https://github.com/supremegamers/vendor_google_proprietary_ndk_translation-prebuilt/archive/68734c52556d3d7a6db34c603dd9276915c29f2f.zip"

abbrev pub default_archive_md5 : String
default_archive_md5 = "0b2207c490fcb400aa5c87fcf0d52d38"

-- What the command line gives `main`.
pub record Arguments : Type 0 where
  pub tooling : String
  pub channel : String
  pub arch : String
  pub system_type : String
  pub vendor_type : String
  pub out : String
  pub no_arm_translation : Bool
  pub version : String

-- `str(datetime or "latest")`
unfoldable pub stamp_or_latest : Option Stamp → String
stamp_or_latest none = "latest"
stamp_or_latest (some (number n)) = if n == 0 then "latest" else str n
stamp_or_latest (some (date s)) = if s == "" then "latest" else s

-- `build["filename"] or kind + ".zip"`
unfoldable pub zip_name : String → Option String → String
zip_name kind filename =
    if text_or_empty filename == "" then kind <> ".zip" else text_or_empty filename

-- `urlopen` takes no None.
abbrev pub url_of : Option String → Result String
url_of none = raised (type_error "url")
url_of (some url) = ok url

insert_asc : String → List String → List String
insert_asc x [] = x ∷ []
insert_asc x (y ∷ ys) = let rest = insert_asc x ys in if text_le x y then x ∷ y ∷ ys else y ∷ rest

-- `sorted(files)`
unfoldable pub sort : List String → List String
unfolding insert_asc
sort [] = []
sort (x ∷ xs) = insert_asc x (sort xs)

unfoldable pub files_in : String → List String → List String
files_in root [] = []
files_in root (name ∷ names) =
    let rest = files_in root names in
    if name == "SHA256SUMS" then rest else path_join root name ∷ rest

-- The files that `os.walk` finds, but for the checksums themselves.
unfoldable pub checksum_files : List (String × List String × List String) → List String
checksum_files [] = []
checksum_files ((root, _, names) ∷ rest) = files_in root names ++ checksum_files rest

-- `p.count(os.sep)`
unfoldable pub depth : String → ℕ
depth String.[] = zero
depth (String.◌∷◌ c s) = let rest = depth s in if code c == b'/' then suc rest else rest

-- A path comes before those that are not deeper and stood behind it.
unfoldable pub insert_deepest : String → List String → List String
insert_deepest x [] = x ∷ []
insert_deepest x (y ∷ ys) =
    let rest = insert_deepest x ys in if leb (depth y) (depth x) then x ∷ y ∷ ys else y ∷ rest

-- `candidates.sort(key=..., reverse=True)`, which keeps the order of equally deep paths
unfoldable pub sort_deepest : List String → List String
sort_deepest [] = []
sort_deepest (x ∷ xs) = insert_deepest x (sort_deepest xs)

-- The directories that hold `lib64`, `lib` and `etc`
unfoldable pub candidates : List (String × List String × List String) → List String
candidates [] = []
candidates ((root, dirs, _) ∷ rest) =
    let others = candidates rest in
    if contains dirs "lib64" && contains dirs "lib" && contains dirs "etc"
    then root ∷ others
    else others

module _ (T : Tools) where
  open T use {State}

  -- An archive with another sum than is expected.
  unfoldable pub mismatch : String → String → String → M State NoneType
  mismatch dest expected actual = do
    T.remove dest
    raise (
        value_error (
          "SHA-256 mismatch for "
          <> (basename dest <> (": expected " <> (expected <> (", got " <> actual))))))

  unfoldable pub verify_sum : String → String → M State NoneType
  verify_sum dest expected = do
    actual ← query (T.sha256 dest)
    when (not (actual == expected)) (mismatch dest expected actual)

  unfoldable pub download : String → String → Option String → M State String
  download url dest expected_sha256 = do
    T.fetch_file url dest
    when (not (text_or_empty expected_sha256 == ""))
        (verify_sum dest (text_or_empty expected_sha256))
    pure dest

  unfoldable pub extract_images : String → String → M State NoneType
  extract_images zip_path dest_dir = do
    members ← query (T.infolist zip_path)
    for_each members (λ member.
        when (ends_with member.filename ".img")
          (T.extract_member zip_path member (path_join dest_dir (basename member.filename))))

  -- A line for each file. The file of the sums is opened before they are computed.
  unfoldable pub checksum_lines : String → List String → M State String
  checksum_lines root [] = pure ""
  checksum_lines root (path ∷ rest) = do
    sum ← query (T.sha256 path)
    others ← checksum_lines root rest
    pure (sum <> ("  " <> (T.relpath path root <> ("\n" <> others))))

  unfoldable pub write_checksums : String → String → List String → M State NoneType
  write_checksums manifest_path root files = do
    T.write manifest_path ""
    text ← checksum_lines root (sort files)
    T.write manifest_path text

  -- The staging directory is filled and packed.
  unfoldable pub fill_staging : String → String → Option String → Bool → String → M State NoneType
  fill_staging tooling_dir images_dir arm_dir with_arm_translation staging = do
    T.make_dirs staging
    T.copy_tree_links tooling_dir (path_join staging "waydroid")
    let images = path_join staging "images"
    T.make_dirs images
    T.copy (path_join images_dir "system.img") (path_join images "system.img")
    T.copy (path_join images_dir "vendor.img") (path_join images "vendor.img")
    is_dir ← gets (T.is_dir (text_or_empty arm_dir))
    when (with_arm_translation && not (text_or_empty arm_dir == "") && is_dir)
        (T.copy_tree (text_or_empty arm_dir) (path_join staging "arm-translation"))
    T.write (path_join staging "install.sh") T.install_sh
    T.chmod (path_join staging "install.sh")
    T.write (path_join staging "LICENSE") ""
    repository ← gets T.repository
    license ← query (T.read (path_join repository "LICENSE"))
    T.write (path_join staging "LICENSE") license
    T.write (path_join staging "NOTICE") T.notice

  unfoldable pub pack :
      String → String → Option String → String → String → String → Bool → String → M State String
  pack tooling_dir images_dir arm_dir out_path channel_label version with_arm_translation temp_dir =
      do
        let staging = path_join temp_dir "pkg"
        fill_staging tooling_dir images_dir arm_dir with_arm_translation staging
        walked ← gets (T.walk staging)
        write_checksums (path_join staging "SHA256SUMS") staging (checksum_files walked)
        T.tar out_path staging ("waydroid-" <> (version <> ("-" <> channel_label)))
        pure out_path

  unfoldable pub assemble_package :
      String → String → Option String → String → String → String → Bool → M State String
  assemble_package tooling_dir images_dir arm_dir out_path channel_label version
        with_arm_translation =
      do
        temp_dir ← T.mkdtemp "waydroid-pkg-"
        try_finally
            (pack tooling_dir images_dir arm_dir out_path channel_label version with_arm_translation
              temp_dir)
            (modify (T.remove_tree temp_dir))

  unfoldable pub has_prebuilts : State → String → Bool
  has_prebuilts s candidate = T.is_dir (candidate <> "/lib64") s && T.is_dir (candidate <> "/etc") s

  unfoldable pub first_root : State → List String → Result String
  first_root s [] = raised (value_error "Could not find prebuilts/ tree in translation archive")
  first_root s (candidate ∷ rest) =
      let later = first_root s rest in if has_prebuilts s candidate then ok candidate else later

  -- `_find_prebuilts_root`
  unfoldable pub find_prebuilts_root : String → M State String
  find_prebuilts_root extracted = do
    walked ← gets (T.walk extracted)
    query (λ s. first_root s (sort_deepest (extracted ∷ candidates walked)))

  unfoldable pub reject_archive : String → String → M State NoneType
  reject_archive archive actual_md5 = do
    T.remove archive
    raise (
        value_error (
          "MD5 mismatch for translation archive: expected "
          <> (default_archive_md5 <> (", got " <> actual_md5))))

  unfoldable pub verify_archive : String → M State NoneType
  verify_archive archive = do
    actual_md5 ← query (T.md5 archive)
    when (not (actual_md5 == default_archive_md5)) (reject_archive archive actual_md5)

  unfoldable pub unpack_archive : String → String → M State NoneType
  unpack_archive archive extract_dir = do
    T.make_dirs extract_dir
    T.extract_all archive extract_dir
    members ← query (T.infolist archive)
    for_each members (λ member.
        when (member.has_mode && not member.is_dir)
          (T.chmod_as member (path_join extract_dir member.filename)))

  unfoldable pub prepare_arm_translation : String → M State String
  prepare_arm_translation work = do
    let archive = path_join work "arm-translation.zip"
    T.fetch_file default_archive_url archive
    verify_archive archive
    let extract_dir = path_join work "arm-extract"
    unpack_archive archive extract_dir
    root ← find_prebuilts_root extract_dir
    let arm_dir = path_join work "arm-translation"
    let system_dir = path_join arm_dir "system"
    T.make_dirs system_dir
    names ← query (T.list_dir root)
    for_each names (λ name. T.copy_tree (path_join root name) (path_join system_dir name))
    pure arm_dir

  -- The sum of an image without one is computed for the log.
  unfoldable pub log_sum : String → Option String → M State NoneType
  log_sum zip_path (some _) = pure tt
  log_sum zip_path none = do query (T.sha256 zip_path); pure tt

  -- One image: the URL of a build that has none is no text.
  unfoldable pub stage_image : String → String → String → Chosen → M State NoneType
  stage_image work images_dir kind build = do
    let zip_path = path_join work (zip_name kind build.filename)
    url ← query (λ _. url_of build.url)
    download url zip_path build.sha256
    extract_images zip_path images_dir
    log_sum zip_path build.sha256

  unfoldable pub prepare_arm_dir : String → Bool → M State (Option String)
  prepare_arm_dir work no_arm_translation =
      if no_arm_translation
      then pure none
      else (do arm_dir ← prepare_arm_translation work; pure (some arm_dir))

  unfoldable pub build_package : Arguments → Builds → String → M State NoneType
  build_package args builds work = do
    let images_dir = path_join work "images"
    T.make_dirs images_dir
    arm_dir ← prepare_arm_dir work args.no_arm_translation
    stage_image work images_dir "system" builds.system
    stage_image work images_dir "vendor" builds.vendor
    T.ensure_dirs args.out
    let channel_label = replace args.channel "community-" "los"
    let out_path = path_join args.out (
        "waydroid-"
        <> (args.version
            <> ("-"
                <> (channel_label
                    <> ("-"
                        <> (args.arch
                            <> ("-" <> (stamp_or_latest builds.system.datetime <> ".tar.xz"))))))))
    assemble_package args.tooling images_dir arm_dir out_path channel_label args.version
        (not args.no_arm_translation)
    pure tt

  unfoldable pub main : Arguments → M State NoneType
  main args = do
    builds ← resolve_builds T.fetch_json args.channel args.arch args.system_type args.vendor_type
    work ← T.mkdtemp "waydroid-release-"
    try_finally (build_package args builds work) (modify (T.remove_tree work))
