-- ===== src/Images/Integrity.antt =====
-- tools/helpers/images.py: which build of a channel is installed, and that it is checked first.
use waydroid.Base.{◌≡◌, ◌≢◌, refl, ap, ◌∙◌, String, ◌<>◌, Bool, true, false, Option, none, some}
use waydroid.Base.{List, [], ◌∷◌, ok, M, pure}
use waydroid.Base.{◌>>=◌, ◌==◌, string_eq, if◌then◌else◌}
use waydroid.Base.{
  arith, NoneType, Exc, Result, raised, raise, value_error, is_os_error, then_do, or_else_do,
  try_except, ◌>>◌,
}
use mathlib.Core.Bool.{cond}
use waydroid.Base.Int.{ℤ, int}
use waydroid.Base.Text.{str}
use waydroid.Base.Refusal.{bind-next, bind-eq-ok, then-eq-ok, query-eq-ok}
use waydroid.Config
use waydroid.Config.Laws.{get-found}
use waydroid.Host.{Host, Config, Build}
use waydroid.Images.Update.{is_below, to_int, reject, unpack, install_build, install_first}

-- The build that a channel's list offers to an image of the given time.
unfoldable pub first_newer : ℤ → List Build → Option Build
first_newer current [] = none
first_newer current (build ∷ rest) =
    let later = first_newer current rest in
    if is_below current build.datetime then some build else later

to_int-some : (text : String) (i : ℤ) → int text ≡ some i → to_int text ≡ ok i
unfolding to_int
to_int-some text i number = rw (number, to_int) refl

module _ (H : Host) where
  open H use {State}

  -- Installing what is offered, if anything is.
  unfoldable pub install_offered : String → String → Config → Option Build → M State Config
  install_offered images_path name cfg none = pure cfg
  install_offered images_path name cfg (some build) = install_build H images_path name build cfg

  -- Where the configuration records the time of the image as a number, the loop over a
  -- channel's builds installs the first build of the list that is newer, and nothing if none
  -- is.
  pub install_first-first_newer :
      (images_path name : String) (builds : List Build) (cfg : Config) (s : State) (text : String)
      (current : ℤ)
      → Config.get? (name <> "_datetime") cfg ≡ some text
      → int text ≡ some current
      → install_first H images_path name builds cfg s
        ≡ install_offered images_path name cfg (first_newer current builds) s
  unfolding install_first install_offered first_newer
  install_first-first_newer images_path name [] cfg s text current found number = refl
  install_first-first_newer images_path name (build ∷ rest) cfg s text current found number =
      bind-next _ _ s s text (get-found (name <> "_datetime") cfg text s found)
      ∙ (bind-next _ _ s s current (ap (λ r. (r, s)) (to_int-some text current number))
          ∙ go (install_first-first_newer images_path name rest cfg s text current found number)
              (is_below current build.datetime))
    where
      go :
          install_first H images_path name rest cfg s
            ≡ install_offered images_path name cfg (first_newer current rest) s
          → (b : Bool)
          → (if b
                then install_build H images_path name build cfg
                else install_first H images_path name rest cfg)
              s
            ≡ install_offered images_path name cfg
                (if b then some build else first_newer current rest)
                s
      go later true = refl
      go later false = later

  reject-raises :
      (zip name : String) (build : Build) (cfg : Config) (s t : State)
      → reject H zip name build s ≢ (ok cfg, t)
  unfolding reject
  reject-raises zip name build cfg s t h = let (_, _, _, q) = then-eq-ok _ _ s t cfg h in cc

  unpack-records :
      (images_path zip name : String) (build : Build) (cfg cfg' : Config) (s t : State)
      → unpack H images_path zip name build cfg s ≡ (ok cfg', t)
      → cfg' ≡ Config.set (name <> "_datetime") (str build.datetime) cfg
  unfolding unpack
  unpack-records images_path zip name build cfg cfg' s t h =
      let (_, u, _, h1) = then-eq-ok _ _ s t cfg' h in
      let (_, v, _, h2) = then-eq-ok _ _ u t cfg' h1 in
      let (_, w, _, h3) = then-eq-ok _ _ v t cfg' h2 in cc

  -- Where install_build returns, the archive that was downloaded had the SHA-256 sum that the
  -- build names, and the configuration returned is the old one with the build's time recorded.
  pub install_build-sha256 :
      (images_path name : String) (build : Build) (cfg cfg' : Config) (s t : State)
      → install_build H images_path name build cfg s ≡ (ok cfg', t)
      → (zip : String) × (u : State) × (H.download build.url build.filename s ≡ (ok zip, u))
        × (H.sha256 zip u ≡ ok build.id)
        × (cfg' ≡ Config.set (name <> "_datetime") (str build.datetime) cfg)
  unfolding install_build
  install_build-sha256 images_path name build cfg cfg' s t h =
      let (zip, u, p, h1) = bind-eq-ok _ _ s t cfg' h in
      let (sum, v, q, h2) = bind-eq-ok _ _ u t cfg' h1 in
      let (same, hash) = query-eq-ok (H.sha256 zip) u v sum q in
      let (matches, written) = checked zip sum v h2 in
      (zip, u, p, ap (H.sha256 zip) same ∙ hash ∙ ap ok matches, written)
    where
      checked :
          (zip sum : String) (v : State)
          → (if sum == build.id
                then unpack H images_path zip name build cfg
                else reject H zip name build)
              v
            ≡ (ok cfg', t)
          → (sum ≡ build.id) × (cfg' ≡ Config.set (name <> "_datetime") (str build.datetime) cfg)
      checked zip sum v e = elim (string_eq.dec sum build.id) [
        | yes m ↦ (m, unpack-records images_path zip name build cfg cfg' v t (ground arith))
        | no n ↦ absurd (reject-raises zip name build cfg' v t (ground arith))
      ]

  -- The host with another extraction of archives.
  abbrev pub extracting : (String → String → M State NoneType) → Host
  extracting extract_all = record H { extract_all = extract_all }

  -- An archive that is rejected has been removed, if it could be, and an exception is raised.
  reject-removes :
      (zip name : String) (build : Build) (u : State)
      → (e : Exc) × (reject H zip name build u ≡ (raised e, (H.remove zip u).1))
  unfolding reject try_except ◌>>◌
  reject-removes zip name build u = go (H.remove zip u)
    where
      failure : Exc
      failure =
          value_error
            ("Downloaded " <> (name <> (" image hash doesn't match, expected: " <> build.id)))

      go :
          (p : Result NoneType × State)
          → (e : Exc) × (then_do
                (or_else_do p (λ x. cond (is_os_error x) (some (pure tt)) none))
                (λ _. raise {A = Config} failure)
              ≡ (raised e, p.1))
      go (ok _, v) = (failure, refl)
      go (raised x, v) = suppressed (is_os_error x)
        where
          suppressed :
              (b : Bool)
              → (let r : Result NoneType × State = elim (cond b (some (pure tt)) none) [
                | none ↦ (raised x, v)
                | some k ↦ k v
              ] in
                  (e : Exc) × (then_do r (λ _. raise {A = Config} failure) ≡ (raised e, v)))
          suppressed true = (failure, refl)
          suppressed false = (x, refl)

  -- Where the downloaded archive has another SHA-256 sum than the build names, install_build
  -- raises, in the state that the removal of the archive leaves, and it does the same whatever
  -- the extraction of archives would do.
  pub install_build-mismatch :
      (extract_all : String → String → M State NoneType) (images_path name : String) (build : Build)
      (cfg : Config) (s u : State) (zip sum : String)
      → H.download build.url build.filename s ≡ (ok zip, u)
      → H.sha256 zip u ≡ ok sum
      → sum ≢ build.id
      → (e : Exc) × (install_build H images_path name build cfg s ≡ (raised e, (H.remove zip u).1))
        × (install_build (extracting extract_all) images_path name build cfg s
            ≡ (raised e, (H.remove zip u).1))
  unfolding install_build reject ◌>>=◌
  install_build-mismatch extract_all images_path name build cfg s u zip sum downloaded hash other =
      let (e, rejected) = reject-removes zip name build u in
      (
        e,
        rw downloaded (rw hash (ground arith)) ∙ rejected,
        rw downloaded (rw hash (ground arith)) ∙ rejected,
      )
