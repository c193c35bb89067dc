-- ===== src/Release/Checked.antt =====
-- tools/release/package.py: no image of the official channel is packed unless its checksum is right.

use waydroid.Base.{◌≡◌, ◌≢◌, refl, ap, ◌∙◌, sym, String, not, Option, none, some, List}
use waydroid.Base.{arith, ok, raised, Result, modify, first_error, try_finally, ◌==◌, string_eq}
use waydroid.Base.{M}
use waydroid.Base.Text.{path_join}
use waydroid.Base.Refusal.{bind-eq-ok, then-eq-ok, query-eq-ok, when-eq-ok}
use waydroid.Release.Channels.{
  Entry, Json, object, Chosen, Builds, text_or_empty, resolve_builds, resolve_official,
}
use waydroid.Release.Choice.{IsLatestOf, system_ota, vendor_ota, resolve_official-IsLatestOf}
use waydroid.Release.Tools.{Tools}
use waydroid.Release.Package.{
  Arguments, mismatch, verify_sum, download, stage_image, build_package, main, zip_name, url_of,
  log_sum, extract_images,
}

try_finally-eq-ok :
    {S A : Type 0} (m : M S A) (g : S → S) (s t : S) (a : A)
    → try_finally m (modify g) s ≡ (ok a, t)
    → (u : S) × (m s ≡ (ok a, u)) × (t ≡ g u)
unfolding try_finally
try_finally-eq-ok {S} {A} m g s t a h = go (m s) refl h
  where
    go :
        (p : Result A × S)
        → m s ≡ p
        → first_error p.0 (modify g p.1) ≡ (ok a, t)
        → (u : S) × (m s ≡ (ok a, u)) × (t ≡ g u)
    go (ok b, u) e h = (u, cc, cc)
    go (raised x, u) e h = cc

nonempty :
    (chosen : Chosen) (entries : List Entry)
    → IsLatestOf chosen entries
    → text_or_empty chosen.sha256 ≢ ""
nonempty chosen entries (_, _, _, _, _, _, given) = given

resolve_builds-official :
    {S : Type 0} (fetch_json : String → M S Json) (channel arch system_type vendor_type : String)
    (s : S)
    → channel ≡ "official"
    → resolve_official fetch_json arch system_type vendor_type s
      ≡ resolve_builds fetch_json channel arch system_type vendor_type s
unfolding resolve_builds
resolve_builds-official fetch_json channel arch system_type vendor_type s e = ground arith

module _ (T : Tools) where
  open T use {State}

  mismatch-raises :
      (dest expected actual : String) (s t : State) → mismatch T dest expected actual s ≢ (ok tt, t)
  unfolding mismatch
  mismatch-raises dest expected actual s t h = let (_, _, _, q) = then-eq-ok _ _ s t tt h in cc

  verify_sum-eq-ok :
      (dest expected : String) (s t : State)
      → verify_sum T dest expected s ≡ (ok tt, t)
      → (s ≡ t) × (T.sha256 dest t ≡ ok expected)
  unfolding verify_sum
  verify_sum-eq-ok dest expected s t h =
      let (actual, u, p, h1) = bind-eq-ok _ _ s t tt h in
      let (same, sum) = query-eq-ok (T.sha256 dest) s u actual p in
      let (equal, passed) =
        when-eq-ok (not (actual == expected)) (mismatch T dest expected actual) u t
          (mismatch-raises dest expected actual u t) h1 in
      let right : actual ≡ expected = ground arith in
      (same ∙ passed, ap (T.sha256 dest) (sym passed) ∙ (sum ∙ ap ok right))

  -- A download that returns, and was given a checksum, has left a file with that checksum.
  download-sha256 :
      (url dest : String) (expected : Option String) (s t : State) (path : String)
      → text_or_empty expected ≢ ""
      → download T url dest expected s ≡ (ok path, t)
      → (T.fetch_file url dest s ≡ (ok tt, t)) × (T.sha256 dest t ≡ ok (text_or_empty expected))
  unfolding download
  download-sha256 url dest expected s t path given h =
      let (_, u, fetched, h1) = then-eq-ok _ _ s t path h in
      let (_, v, checked, h2) = then-eq-ok _ _ u t path h1 in
      let done : v ≡ t = cc in
      let verified : verify_sum T dest (text_or_empty expected) u ≡ (ok tt, v) = ground arith in
      let (same, sum) = verify_sum-eq-ok dest (text_or_empty expected) u v verified in
      (ground arith, ap (T.sha256 dest) (sym done) ∙ sum)

  -- Between two states one image has been fetched, had the checksum of its build, and was then
  -- extracted.
  abbrev pub IsStaged : String → String → String → Chosen → State → State → Type 0
  IsStaged work images_dir kind build s t =
      let zip = path_join work (zip_name kind build.filename) in
      (url : String) × (u : State) × (build.url ≡ some url)
      × (T.fetch_file url zip s ≡ (ok tt, u))
      × (T.sha256 zip u ≡ ok (text_or_empty build.sha256))
      × (extract_images T zip images_dir u ≡ (ok tt, t))

  url_of-eq-ok : (url : Option String) (text : String) → url_of url ≡ ok text → url ≡ some text
  url_of-eq-ok none text h = cc
  url_of-eq-ok (some u) text h = cc

  log_sum-passes :
      (zip : String) (sum : Option String) (s t : State)
      → text_or_empty sum ≢ ""
      → log_sum T zip sum s ≡ (ok tt, t)
      → s ≡ t
  unfolding log_sum
  log_sum-passes zip none s t given h = absurd (given refl)
  log_sum-passes zip (some sum) s t given h = cc

  stage_image-IsStaged :
      (work images_dir kind : String) (build : Chosen) (s t : State)
      → text_or_empty build.sha256 ≢ ""
      → stage_image T work images_dir kind build s ≡ (ok tt, t)
      → IsStaged work images_dir kind build s t
  unfolding stage_image
  stage_image-IsStaged work images_dir kind build s t given h =
      let zip = path_join work (zip_name kind build.filename) in
      let (url, v, p, h1) = bind-eq-ok _ _ s t tt h in
      let (same, has) = query-eq-ok (λ _. url_of build.url) s v url p in
      let (path, u, downloaded, h2) = then-eq-ok (download T url zip build.sha256) _ v t tt h1 in
      let (_, w, extracted, h3) = then-eq-ok (extract_images T zip images_dir) _ u t tt h2 in
      let (fetched, sum) = download-sha256 url zip build.sha256 v u path given downloaded in
      let passed = log_sum-passes zip build.sha256 w t given h3 in
      (url, u, url_of-eq-ok build.url url has, (cc), sum, (cc))

  build_package-IsStaged :
      (args : Arguments) (builds : Builds) (work : String) (s t : State)
      → text_or_empty builds.system.sha256 ≢ ""
      → text_or_empty builds.vendor.sha256 ≢ ""
      → build_package T args builds work s ≡ (ok tt, t)
      → (images_dir : String) × (u v w : State) × IsStaged work images_dir "system" builds.system u
          v
        × IsStaged work images_dir "vendor" builds.vendor v w
  unfolding build_package
  build_package-IsStaged args builds work s t has_system has_vendor h =
      let images_dir = path_join work "images" in
      let (_, s1, _, h1) = then-eq-ok _ _ s t tt h in
      let (arm_dir, s2, _, h2) = bind-eq-ok _ _ s1 t tt h1 in
      let (_, s3, system, h3) =
        then-eq-ok (stage_image T work images_dir "system" builds.system) _ s2 t tt h2 in
      let (_, s4, vendor, h4) =
        then-eq-ok (stage_image T work images_dir "vendor" builds.vendor) _ s3 t tt h3 in
      (
        images_dir,
        s2,
        s3,
        s4,
        stage_image-IsStaged work images_dir "system" builds.system s2 s3 has_system system,
        stage_image-IsStaged work images_dir "vendor" builds.vendor s3 s4 has_vendor vendor,
      )

  -- From a state on, the lists of the two official channels have been fetched, the first of the
  -- latest builds of each was taken, and the two images were staged one after the other.
  abbrev pub StagesLatest : Arguments → State → Type 0
  StagesLatest args s =
      (builds : Builds) × (systems vendors : List Entry) × (u v : State) × (T.fetch_json
          (system_ota args.arch args.system_type) s
        ≡ (ok (object (some systems)), u))
      × (T.fetch_json (vendor_ota args.arch args.vendor_type) u ≡ (ok (object (some vendors)), v))
      × IsLatestOf builds.system systems
      × IsLatestOf builds.vendor vendors
      × (work images_dir : String) × (x y z : State) × IsStaged work images_dir "system"
          builds.system x y
      × IsStaged work images_dir "vendor" builds.vendor y z

  -- Where main returns for the official channel, it has fetched the lists of both channels and
  -- has taken one of the latest builds of each; and each of the two archives was fetched, had
  -- the checksum that its build names, which is not empty, and was extracted only then.
  pub main-IsStaged :
      (args : Arguments) (s t : State)
      → args.channel ≡ "official"
      → main T args s ≡ (ok tt, t)
      → StagesLatest args s
  unfolding main
  main-IsStaged args s t official h =
      let (builds, v, resolved, h1) = bind-eq-ok _ _ s t tt h in
      let (u, systems, vendors, first, second, best, best') =
        resolve_official-IsLatestOf T.fetch_json args.arch args.system_type args.vendor_type s v
          builds
          (resolve_builds-official T.fetch_json args.channel args.arch args.system_type
              args.vendor_type s official
            ∙ resolved) in
      let (work, w, _, h2) = bind-eq-ok _ _ v t tt h1 in
      let (x, built, _) =
        try_finally-eq-ok (build_package T args builds work) (T.remove_tree work) w t tt h2 in
      let (images_dir, a, b, c, staged, staged') =
        build_package-IsStaged args builds work w x (nonempty builds.system systems best)
          (nonempty builds.vendor vendors best') built in
      (
        builds, systems, vendors, u, v, first, second, best, best', work, images_dir, a, b, c,
        staged, staged',
      )
