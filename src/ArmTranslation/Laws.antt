-- ===== src/ArmTranslation/Laws.antt =====
-- tools/actions/arm_translation.py: what is installed where the command returns.
use mathlib.Core.Path.{subst}
use waydroid.Arch
use waydroid.ArmTranslation.{default_archive_url, default_archive_md5, is_installed}
use waydroid.ArmTranslation.Manage.{
  Archives, Source, verify, place, place_default, place_given, fetch_given, demand_layout,
  regenerate_base_props, install,
}
use waydroid.Base.{◌≡◌, ap, ◌∙◌, sym, ◌⊎◌, inl, inr, String, true, false, not, ◌&&◌}
use waydroid.Base.{arith, ok, modify, pure, ◌>>=◌, ◌>>◌, ◌==◌, string_eq, if◌then◌else◌}
use waydroid.Base.Refusal.{bind-eq-ok, then-eq-ok, guard-eq-ok, query-eq-ok, if-eq-ok, when-eq-ok}
use waydroid.Host.{Host}

module _ (H : Host) (A : Archives H) where
  open H use {State}

  -- The default archive has been taken from the cache or downloaded, and had the sum of the prebuilt.
  abbrev pub IsGenuine : State → Type 0
  IsGenuine s =
      (t : State) × (archive : String) × (H.download_cached default_archive_url "arm_translation" s
        ≡ (ok archive, t))
      × (A.md5 archive t ≡ ok default_archive_md5)

  verify-eq-ok :
      (archive : String) (s t : State)
      → verify H A archive s ≡ (ok tt, t)
      → A.md5 archive s ≡ ok default_archive_md5
  unfolding verify
  verify-eq-ok archive s t h =
      let (sum, u, p, h1) = bind-eq-ok _ _ s t tt h in
      let (same, e) = query-eq-ok (A.md5 archive) s u sum p in
      let (good, _) = when-eq-ok (not (sum == default_archive_md5)) _ u t (λ q. cc) h1 in
      ap (A.md5 archive) same ∙ (e ∙ ap ok (equal sum good))
    where
      equal : (sum : String) → not (sum == default_archive_md5) ≡ false → sum ≡ default_archive_md5
      equal sum e = ground arith

  place_default-IsGenuine : (s t : State) → place_default H A s ≡ (ok tt, t) → IsGenuine s
  unfolding place_default
  place_default-IsGenuine s t h =
      let (archive, u, fetched, h1) = bind-eq-ok _ _ s t tt h in
      let (_, v, checked, h2) = then-eq-ok (verify H A archive) _ u t tt h1 in
      (u, archive, fetched, verify-eq-ok archive u v checked)

  place_given-IsGenuine :
      (archive : String) (s t : State)
      → place_given H A archive default_archive_url s ≡ (ok tt, t)
      → IsGenuine s
  unfolding place_given fetch_given string_eq
  place_given-IsGenuine archive s t h =
      let (given, u, fetched, h1) = bind-eq-ok _ _ s t tt h in
      let (at, v, downloaded, h2) =
        bind-eq-ok (H.download_cached default_archive_url "arm_translation") _ s u given fetched in
      let (_, w, checked, h3) = then-eq-ok (verify H A at) _ v u given h2 in
      (v, at, downloaded, verify-eq-ok at v w checked)

  demand_layout-passes :
      (s t : State) → demand_layout H A s ≡ (ok tt, t) → (s ≡ t) × (is_installed H s ≡ true)
  unfolding demand_layout ◌>>=◌ ◌>>◌
  demand_layout-passes s t h = elim (if-eq-ok (is_installed H s) (pure tt) _ s t tt h) [
    | inl (e, passed) ↦ (cc, e)
    | inr (e, never) ↦ cc
  ]

  -- Without a source of the user's, or with the default archive's own URL.
  abbrev pub AsksDefault : Source → Type 0
  AsksDefault args =
      (args.source ≡ "")
      × (((args.archive ≡ "") × (args.url ≡ "")) ⊎ (args.url ≡ default_archive_url))

  by_default :
      (args : Source) (s : State)
      → args.source ≡ ""
      → args.archive ≡ ""
      → args.url ≡ ""
      → place H A args s ≡ place_default H A s
  unfolding place
  by_default args s a b c = ground arith

  by_url :
      (args : Source) (s : State)
      → args.source ≡ ""
      → args.url ≡ default_archive_url
      → place H A args s ≡ place_given H A args.archive default_archive_url s
  unfolding place string_eq
  by_url args s a c = rw (a, c) (sides args.archive)
    where
      sides :
          (archive : String)
          → (if not (archive == "" && false)
                then place_given H A archive default_archive_url
                else place_default H A)
              s
            ≡ place_given H A archive default_archive_url s
      sides archive = ground arith

  place-IsGenuine :
      (args : Source) (s t : State) → AsksDefault args → place H A args s ≡ (ok tt, t) → IsGenuine s
  place-IsGenuine args s t (no_source, which) h = elim which [
    | inl (no_archive, no_url) ↦
        place_default-IsGenuine s t (sym (by_default args s no_source no_archive no_url) ∙ h)
    | inr named ↦ place_given-IsGenuine args.archive s t (sym (by_url args s no_source named) ∙ h)
  ]

  -- Where install returns for the default archive, named by its URL or not at all, that archive
  -- was taken from the cache or downloaded after the old layer had been removed, and had the
  -- sum of the prebuilt; and the files of the layer were all there when the properties were
  -- written anew.
  pub install-IsGenuine :
      (args : Source) (s t : State)
      → AsksDefault args
      → install H A args s ≡ (ok tt, t)
      → IsGenuine (A.remove_tree "/var/lib/waydroid/arm-translation" s)
        × (u : State) × (is_installed H u ≡ true)
        × (regenerate_base_props H A u ≡ (ok tt, t))
  unfolding install
  install-IsGenuine args s t default h =
      let (host, s1, p, h1) = bind-eq-ok _ _ s t tt h in
      let (_, h2) = guard-eq-ok _ _ _ s1 t tt h1 in
      let (_, s2, removed, h3) =
        then-eq-ok (modify (A.remove_tree "/var/lib/waydroid/arm-translation")) _ s1 t tt h2 in
      let (_, s3, placed, h4) = then-eq-ok (place H A args) _ s2 t tt h3 in
      let (_, s4, there, h5) = then-eq-ok (demand_layout H A) _ s3 t tt h4 in
      let (same, complete) = demand_layout-passes s3 s4 there in
      let genuine = place-IsGenuine args s2 s3 default placed in
      let (stayed, _) = query-eq-ok (Arch.host H) s s1 host p in
      let cleared =
        ap (A.remove_tree "/var/lib/waydroid/arm-translation") stayed ∙ ap (λ q. q.1) removed in
      (subst IsGenuine (sym cleared) genuine, s4, ap (is_installed H) (sym same) ∙ complete, h5)
