-- ===== src/Initializer/Laws.antt =====
-- tools/actions/initializer.py: what is true once the images are chosen, who may initialize, and how
-- a worker ends.
use waydroid.Base.{
  ◌≡◌, ◌≢◌, sym, ◌⊎◌, inl, inr, ℕ, String, true, false, not, ◌||◌, Option, none, some, List, [],
  ◌∷◌,
}
use waydroid.Base.{arith, ok, pure, ◌==◌, contains, string_eq, nat_eq}
use waydroid.Base.Refusal.{bind-eq-ok, then-eq-ok, guard-eq-ok, if-eq-ok}
use mathlib.Core.Path.{subst}
use waydroid.Config.{preinstalled_images_paths}
use waydroid.Drivers.{BinderNodes}
use waydroid.Host.{Host, Config}
use waydroid.Initializer.Setup.{
  Request, Prepared, find_preinstalled, use_preinstalled, use_channels, use_request, setup_config,
  first_vendor, vendor_ota_of, system_ota_of, prepared_of, describe_host, settle,
}

contains-here : (x path : String) (rest : List String) → path ≡ x → contains (x ∷ rest) path ≡ true
contains-here x path rest e = ground arith

contains-later :
    (x path : String) (rest : List String)
    → contains rest path ≡ true
    → contains (x ∷ rest) path ≡ true
contains-later x path rest h = ground arith

returned : {S : Type 0} (a b : Prepared) (s t : S) → pure (some a) s ≡ (ok (some b), t) → a ≡ b
returned a b s t h = cc

status_good : (n : ℕ) → not (n == 200) ≡ false → n ≡ 200
status_good n h = ground arith

named_text : (s : String) → (s == "") ≡ false → s ≢ ""
named_text s h = ground arith

module _ (H : Host) where
  open H use {State}

  -- Some request of this URL has been answered with status 200.
  abbrev pub IsAnswered : String → Type 0
  IsAnswered url = (s t : State) × (H.retrieve_status url s ≡ (ok 200, t))

  -- The images are preinstalled and have no channel; or both channels have answered, and the
  -- vendor is named.
  abbrev pub IsSettled : Prepared → Type 0
  IsSettled prepared =
      ((contains preinstalled_images_paths prepared.settings.images_path ≡ true)
        × (prepared.settings.system_ota ≡ "None")
        × (prepared.settings.vendor_ota ≡ "None"))
      ⊎ (IsAnswered prepared.settings.system_ota
          × IsAnswered prepared.settings.vendor_ota
          × (prepared.settings.vendor_type ≢ ""))

  answered_well :
      (url : String) (s u : State) (status : ℕ)
      → status ≡ 200
      → H.retrieve_status url s ≡ (ok status, u)
      → H.retrieve_status url s ≡ (ok 200, u)
  answered_well url s u status found retrieved =
      subst (λ n. H.retrieve_status url s ≡ (ok n, u)) found retrieved

  first_vendor-IsAnswered :
      (request : Request) (arch vendor_ota : String) (vendors : List String) (s t : State)
      (vendor url : String)
      → first_vendor H request arch vendor_ota vendors s ≡ (ok (vendor, url), t)
      → vendor ≢ ""
      → IsAnswered url
  unfolding first_vendor
  first_vendor-IsAnswered request arch vendor_ota [] s t vendor url h named = absurd (named (cc))
  first_vendor-IsAnswered request arch vendor_ota (x ∷ rest) s t vendor url h named =
      let (status, u, retrieved, h1) = bind-eq-ok _ _ s t (vendor, url) h in
      let next = vendor_ota_of request arch x in
      elim (if-eq-ok (status == 200) (pure (x, next)) (first_vendor H request arch next rest) u t
        (vendor, url) h1) [
          | inl (e, taken) ↦
              let same : next ≡ url = cc in
              let found : status ≡ 200 = ground arith in
              subst IsAnswered same (s, u, answered_well next s u status found retrieved)
          | inr (e, later) ↦
              first_vendor-IsAnswered request arch next rest u t vendor url later named
        ]

  find_preinstalled-contains :
      (paths : List String) (s t : State) (path : String)
      → find_preinstalled H paths s ≡ (ok (some path), t)
      → contains paths path ≡ true
  unfolding find_preinstalled
  find_preinstalled-contains [] s t path h = cc
  find_preinstalled-contains (x ∷ rest) s t path h =
      let (is_dir, u, _, h1) = bind-eq-ok _ _ s t (some path) h in
      let (found, v, _, h2) = bind-eq-ok _ _ u t (some path) h1 in
      elim (if-eq-ok found (pure (some x)) (find_preinstalled H rest) v t (some path) h2) [
        | inl (e, taken) ↦ let same : x ≡ path = cc in contains-here x path rest (sym same)
        | inr (e, again) ↦
            contains-later x path rest (find_preinstalled-contains rest v t path again)
      ]

  use_preinstalled-settles :
      (vendor_type : String) (nodes : BinderNodes) (path : String) (cfg : Config) (s t : State)
      (prepared : Prepared)
      → use_preinstalled H vendor_type nodes path cfg s ≡ (ok (some prepared), t)
      → (prepared.settings.images_path ≡ path)
        × (prepared.settings.system_ota ≡ "None")
        × (prepared.settings.vendor_ota ≡ "None")
  unfolding use_preinstalled
  use_preinstalled-settles vendor_type nodes path cfg s t prepared h =
      let (_, u, _, h1) = then-eq-ok _ _ s t (some prepared) h in (cc, cc, cc)

  use_channels-settles :
      (request : Request) (arch : String) (nodes : BinderNodes) (path : String) (cfg : Config)
      (s t : State) (prepared : Prepared)
      → use_channels H request arch nodes path cfg s ≡ (ok (some prepared), t)
      → IsAnswered prepared.settings.system_ota
        × IsAnswered prepared.settings.vendor_ota
        × (prepared.settings.vendor_type ≢ "")
  unfolding use_channels
  use_channels-settles request arch nodes path cfg s t prepared h =
      let (status, u, retrieved, h1) = bind-eq-ok _ _ s t (some prepared) h in
      let (good, h2) = guard-eq-ok (not (status == 200)) _ _ u t (some prepared) h1 in
      let (device_codename, v, _, h3) = bind-eq-ok _ _ u t (some prepared) h2 in
      let (vendor_type, w, _, h4) = bind-eq-ok _ _ v t (some prepared) h3 in
      let ((vendor, vendor_ota), x, asked, h5) = bind-eq-ok _ _ w t (some prepared) h4 in
      let (named, h6) = guard-eq-ok (vendor == "") _ _ x t (some prepared) h5 in
      let (_, x', _, h6') = then-eq-ok _ _ x t (some prepared) h6 in
      let (_, y, _, h7) = then-eq-ok _ _ x' t (some prepared) h6' in
      let system_ota = system_ota_of request arch in
      let built : prepared_of vendor path system_ota vendor_ota nodes ≡ prepared =
        returned _ prepared y t h7 in
      let found = status_good status good in
      let vendor_named = named_text vendor named in
      let reached =
        first_vendor-IsAnswered request arch "" (device_codename ∷ vendor_type ∷ []) w x vendor
          vendor_ota asked vendor_named in
      subst
        (λ p.
          IsAnswered p.settings.system_ota
          × IsAnswered p.settings.vendor_ota
          × (p.settings.vendor_type ≢ ""))
        built ((s, u, answered_well system_ota s u status found retrieved), reached, vendor_named)

  use_request-settles :
      (request : Request) (arch : String) (nodes : BinderNodes) (cfg : Config) (s t : State)
      (prepared : Prepared)
      → use_request H request arch nodes cfg s ≡ (ok (some prepared), t)
      → IsAnswered prepared.settings.system_ota
        × IsAnswered prepared.settings.vendor_ota
        × (prepared.settings.vendor_type ≢ "")
  unfolding use_request
  use_request-settles request arch nodes cfg s t prepared h =
      let (_, s', _, h') = then-eq-ok _ _ s t (some prepared) h in
      let (channels_cfg, u, _, h1) = bind-eq-ok _ _ s' t (some prepared) h' in
      let (filled, v, _, h2) = bind-eq-ok _ _ u t (some prepared) h1 in
      elim (if-eq-ok (filled.system_channel == "" || filled.vendor_channel == "") (pure none) _ v t
        (some prepared) h2) [
          | inl (e, stopped) ↦ cc
          | inr (e, taken) ↦ use_channels-settles filled arch nodes _ _ v t prepared taken
        ]

  -- Where setup_config returns True, either the images are those of a directory for
  -- preinstalled images and neither channel is set, or the URLs of both channels have been
  -- answered with status 200 and the vendor type is not empty.
  pub setup_config-IsSettled :
      (request : Request) (s t : State) (prepared : Prepared)
      → setup_config H request s ≡ (ok (some prepared), t)
      → IsSettled prepared
  unfolding setup_config
  setup_config-IsSettled request s t prepared h =
      let (cfg, s1, _, h1) = bind-eq-ok _ _ s t (some prepared) h in
      let (arch, s2, _, h2) = bind-eq-ok _ _ s1 t (some prepared) h1 in
      let (_, s2', _, h2') = then-eq-ok _ _ s2 t (some prepared) h2 in
      let (vendor_type, s3, _, h3) = bind-eq-ok _ _ s2' t (some prepared) h2' in
      let (_, s3', _, h3') = then-eq-ok _ _ s3 t (some prepared) h3 in
      let (nodes, s4, _, h4) = bind-eq-ok _ _ s3' t (some prepared) h3' in
      let (_, s4', _, h4') = then-eq-ok _ _ s4 t (some prepared) h4 in
      let (preinstalled, s5, found, h5) = bind-eq-ok _ _ s4' t (some prepared) h4' in
      go arch vendor_type nodes (describe_host arch vendor_type nodes cfg) s4' s5 preinstalled found
        h5
    where
      go :
          (arch vendor_type : String) (nodes : BinderNodes) (described : Config) (s4 s5 : State)
          (preinstalled : Option String)
          → find_preinstalled H preinstalled_images_paths s4 ≡ (ok preinstalled, s5)
          → settle H request arch vendor_type nodes described preinstalled s5
            ≡ (ok (some prepared), t)
          → IsSettled prepared
      go arch vendor_type nodes described s4 s5 (some path) found h =
          let (at, no_system, no_vendor) =
            use_preinstalled-settles vendor_type nodes path described s5 t prepared h in
          inl (
            subst (λ x. contains preinstalled_images_paths x ≡ true) (sym at)
                (find_preinstalled-contains preinstalled_images_paths s4 s5 path found),
            no_system,
            no_vendor,
          )
      go arch vendor_type nodes described s4 s5 none found h =
          inr (use_request-settles request arch nodes described s5 t prepared h)
