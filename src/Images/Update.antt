-- ===== src/Images/Update.antt =====
-- tools/helpers/images.py: `get`, `validate`, `replace` and `remove_overlay`.
use waydroid.Base.{ℕ, String, ◌<>◌, Bool, true, false, not, ◌||◌, none, some, List, [], ◌∷◌, M}
use waydroid.Base.{Result, ok, raised, NoneType, pure, raise, gets, query, value_error, when}
use waydroid.Base.{suppress_os_error, ◌>>=◌, ◌>>◌, ◌==◌, string_eq, nat_eq, ltb, if◌then◌else◌}
use waydroid.Base.Text.{str}
use waydroid.Base.Int.{ℤ, pos, negsuc, int}
use waydroid.Config
use waydroid.Config.{load, save, overlay_rw, overlay_work}
use waydroid.Host.{Host, Config, Build}

-- `i < n`, for an integer and a natural number
abbrev pub is_below : ℤ → ℕ → Bool
is_below (pos i) n = ltb i n
is_below (negsuc i) n = true

-- `int(text)`
unfoldable pub to_int : String → Result ℤ
to_int text = elim (int text) [ none ↦ raised (value_error text) | some i ↦ ok i ]

-- `len(builds) < 1`
abbrev is_nil : List Build → Bool
is_nil [] = true
is_nil (_ ∷ _) = false

-- `x == build['id']` for one of the builds
listed : String → List Build → Bool
listed chksum [] = false
listed chksum (build ∷ rest) = chksum == build.id || listed chksum rest

module _ (H : Host) where
  open H use {State}

  unfoldable pub remove_overlay : M State NoneType
  remove_overlay = do
    is_dir ← gets (H.is_dir overlay_rw)
    when is_dir (H.remove_tree overlay_rw)
    is_dir' ← gets (H.is_dir overlay_work)
    when is_dir' (H.remove_tree overlay_work)

  -- An archive with another hash than its build's.
  unfoldable pub reject : String → String → Build → M State Config
  reject images_zip name build =
      suppress_os_error (H.remove images_zip)
      >> raise (
          value_error
            ("Downloaded " <> (name <> (" image hash doesn't match, expected: " <> build.id))))

  -- An archive with the right hash.
  unfoldable pub unpack : String → String → String → Build → Config → M State Config
  unpack images_path images_zip name build cfg = do
    H.extract_all images_zip images_path
    let cfg' = Config.set (name <> "_datetime") (str build.datetime) cfg
    save H cfg'
    H.remove images_zip
    pure cfg'

  -- One build of the `name` image, system or vendor, is downloaded, checked against its hash,
  -- extracted and recorded.
  unfoldable pub install_build : String → String → Build → Config → M State Config
  install_build images_path name build cfg = do
    images_zip ← H.download build.url build.filename
    sum ← query (H.sha256 images_zip)
    if sum == build.id
        then unpack images_path images_zip name build cfg
        else reject images_zip name build

  -- The loop over the builds: the first that is newer than the installed one.
  unfoldable pub install_first : String → String → List Build → Config → M State Config
  install_first images_path name [] cfg = pure cfg
  install_first images_path name (build ∷ rest) cfg = do
    text ← Config.get (name <> "_datetime") cfg
    current ← query (λ _. to_int text)
    if is_below current build.datetime
        then install_build images_path name build cfg
        else install_first images_path name rest cfg

  -- One channel: its builds are fetched and the newer one is installed.
  unfoldable pub update_channel : String → String → Config → M State Config
  update_channel images_path name cfg = do
    url ← Config.get (name <> "_ota") cfg
    answer ← H.retrieve url
    when (not (answer.status == 200)) (
        raise (
          value_error (
            "Failed to get "
            <> (name <> (" OTA channel: " <> (url <> (", error: " <> str answer.status)))))))
    when (is_nil answer.builds)
        (raise (value_error ("No images found on " <> (name <> " channel"))))
    install_first images_path name answer.builds cfg

  unfoldable pub get : String → M State NoneType
  get images_path = do
    cfg ← load H
    cfg' ← update_channel images_path "system" cfg
    update_channel images_path "vendor" cfg'
    remove_overlay

  unfoldable pub validate : String → String → M State Bool
  unfolding listed
  validate channel file = do
    cfg ← load H
    url ← Config.get channel cfg
    answer ← H.retrieve url
    if not (answer.status == 200)
        then pure false
        else do chksum ← query (H.sha256 file); pure (listed chksum answer.builds)

  -- The archive is extracted, and its time recorded, if it is one of the channel's.
  take_valid : String → String → String → String → Bool → Config → M State Config
  take_valid images_path datetime_key zip time valid cfg =
      if valid
      then H.extract_all zip images_path >> pure (Config.set datetime_key time cfg)
      else pure cfg

  take_present : String → String → String → String → String → Config → M State Config
  unfolding take_valid
  take_present images_path channel datetime_key zip time cfg = do
    valid ← validate channel zip
    cfg' ← take_valid images_path datetime_key zip time valid cfg
    H.remove zip
    pure cfg'

  -- One archive of an update: it is removed in any case.
  unfoldable pub replace_image :
      String → String → String → String → String → Config → M State Config
  unfolding take_present
  replace_image images_path channel datetime_key zip time cfg = do
    exists ← gets (H.exists zip)
    if exists then take_present images_path channel datetime_key zip time cfg else pure cfg

  -- The times are the texts that `str` gives.
  unfoldable pub replace : String → String → String → String → M State NoneType
  replace system_zip system_time vendor_zip vendor_time = do
    cfg ← load H
    images_path ← Config.get "images_path" cfg
    cfg' ← replace_image images_path "system_ota" "system_datetime" system_zip system_time cfg
    cfg'' ← replace_image images_path "vendor_ota" "vendor_datetime" vendor_zip vendor_time cfg'
    save H cfg''
    remove_overlay
