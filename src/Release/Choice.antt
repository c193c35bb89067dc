-- ===== src/Release/Choice.antt =====
-- tools/release/package.py: which of a channel's builds is taken.
use waydroid.Base.{
  ◌≡◌, ◌≢◌, refl, ap, ◌∙◌, sym, ◌⊎◌, inl, inr, ℕ, ◌≤◌, String, ◌<>◌, Bool, true, false, Option,
  none, some,
}
use waydroid.Base.{List, [], ◌∷◌, arith, ok, string_eq, ltb, if◌then◌else◌}
use waydroid.Base.Refusal.{bind-eq-ok, query-eq-ok, then_result-eq-ok}
use mathlib.Core.Path.{subst}
use waydroid.Base.{M}
use waydroid.Release.Channels.{
  Entry, Json, object, array, Chosen, Builds, text_or_empty, time_of, latest, pick, response,
}
use waydroid.Release.Channels.{demand_sum, demand_key, chosen_of, vendor_of}
use waydroid.Release.Channels.{parse_official_channel, resolve_official}

abbrev pub IsIn : {A : Type 0} → A → List A → Type 0
IsIn x [] = ⊥
IsIn x (y ∷ ys) = (x ≡ y) ⊎ IsIn x ys

-- No entry of the list is later than the build.
abbrev pub AllUpTo : ℕ → List Entry → Type 0
AllUpTo n [] = Unit
AllUpTo n (x ∷ xs) = (time_of x.datetime ≤ n) × AllUpTo n xs

-- What is taken is one of the entries, none is later, and it has a checksum that is not empty.
abbrev pub IsLatestOf : Chosen → List Entry → Type 0
IsLatestOf chosen entries =
    (best : Entry) × IsIn best entries
    × AllUpTo (time_of best.datetime) entries
    × (chosen.url ≡ best.url)
    × (chosen.filename ≡ best.filename)
    × (chosen.sha256 ≡ best.id)
    × (text_or_empty chosen.sha256 ≢ "")

latest-IsIn : (build : Entry) (rest : List Entry) → IsIn (latest build rest) (build ∷ rest)
unfolding latest
latest-IsIn build [] = inl refl
latest-IsIn build (next ∷ rest) =
    go (latest-IsIn next rest) (latest-IsIn build rest)
      (ltb (time_of build.datetime) (time_of next.datetime))
  where
    go :
        IsIn (latest next rest) (next ∷ rest)
        → IsIn (latest build rest) (build ∷ rest)
        → (b : Bool) → IsIn (latest (if b then next else build) rest) (build ∷ next ∷ rest)
    go later first true = inr later
    go later (inl e) false = inl e
    go later (inr first) false = inr (inr first)

-- The first of the latest entries is as late as `build` and as all others.
latest-AllUpTo :
    (build : Entry) (rest : List Entry)
    → AllUpTo (time_of (latest build rest).datetime) (build ∷ rest)
unfolding latest
latest-AllUpTo build [] = (omega arith, tt)
latest-AllUpTo build (next ∷ rest) =
    go (latest-AllUpTo next rest) (latest-AllUpTo build rest)
      (ltb (time_of build.datetime) (time_of next.datetime)) refl
  where
    go :
        AllUpTo (time_of (latest next rest).datetime) (next ∷ rest)
        → AllUpTo (time_of (latest build rest).datetime) (build ∷ rest)
        → (b : Bool) → ltb (time_of build.datetime) (time_of next.datetime) ≡ b
        → AllUpTo (time_of (latest (if b then next else build) rest).datetime) (build ∷ next ∷ rest)
    go (le, later) first true e = (ground arith, (le, later))
    go later (le, first) false e = (le, (ground arith, first))

demand_sum-eq-ok :
    (message : String) (id : Option String) (sum : String)
    → demand_sum message id ≡ ok sum
    → (id ≡ some sum) × (sum ≢ "")
unfolding demand_sum
demand_sum-eq-ok message none sum h = absurd (ground arith)
demand_sum-eq-ok message (some s) sum h = elim (string_eq.dec s "") [
  | yes e ↦ absurd (ground arith)
  | no n ↦ let same : s ≡ sum = ground arith in (ap some same, λ e. n (same ∙ e))
]

demand_key-eq-ok :
    (key : String) (value : Option String) (s : String)
    → demand_key key value ≡ ok s
    → value ≡ some s
unfolding demand_key
demand_key-eq-ok key none s h = cc
demand_key-eq-ok key (some v) s h = cc

pick-IsLatestOf :
    (a b c : String) (response : Option (List Entry)) (chosen : Chosen)
    → pick a b c response ≡ ok chosen
    → (entries : List Entry) × (response ≡ some entries) × IsLatestOf chosen entries
unfolding pick chosen_of
pick-IsLatestOf a b c none chosen h = cc
pick-IsLatestOf a b c (some []) chosen h = cc
pick-IsLatestOf a b c (some (build ∷ rest)) chosen h =
    let best = latest build rest in
    let (sum, p, h1) = then_result-eq-ok (demand_sum b best.id) _ chosen h in
    let (url, q, h2) = then_result-eq-ok (demand_key "url" best.url) _ chosen h1 in
    let (filename, r, h3) = then_result-eq-ok (demand_key "filename" best.filename) _ chosen h2 in
    let (has_sum, nonempty) = demand_sum-eq-ok b best.id sum p in
    let has_url = demand_key-eq-ok "url" best.url url q in
    let has_name = demand_key-eq-ok "filename" best.filename filename r in
    let taken : chosen.sha256 ≡ some sum = cc in
    (
      build ∷ rest,
      refl,
      (
        best,
        latest-IsIn build rest,
        latest-AllUpTo build rest,
        (cc),
        (cc),
        (cc),
        λ e. nonempty (sym (ap text_or_empty taken) ∙ e),
      ),
    )

response-eq-ok :
    (answer : Json) (entries : Option (List Entry))
    → response answer ≡ ok entries
    → answer ≡ object entries
unfolding response
response-eq-ok (object e) entries h = cc
response-eq-ok (array l) entries h = cc

parse_official_channel-IsLatestOf :
    (answer : Json) (system_type vendor_type arch : String) (builds : Builds)
    → parse_official_channel answer system_type vendor_type arch ≡ ok builds
    → (entries : List Entry) × (answer ≡ object (some entries)) × IsLatestOf builds.system entries
unfolding parse_official_channel
parse_official_channel-IsLatestOf answer system_type vendor_type arch builds h =
    let (found, r, e) = then_result-eq-ok (response answer) _ builds h in
    let (system, taken, built) = then_result-eq-ok _ _ builds e in
    let (entries, has, best) = pick-IsLatestOf _ _ _ found system taken in
    let same : system ≡ builds.system = cc in
    (
      entries,
      response-eq-ok answer found r ∙ ap object has,
      subst (λ c. IsLatestOf c entries) same best,
    )

vendor_of-IsLatestOf :
    (answer : Json) (channel : String) (vendor : Chosen)
    → vendor_of answer channel ≡ ok vendor
    → (entries : List Entry) × (answer ≡ object (some entries)) × IsLatestOf vendor entries
unfolding vendor_of
vendor_of-IsLatestOf answer channel vendor h =
    let (found, r, e) = then_result-eq-ok (response answer) _ vendor h in
    let (entries, has, best) = pick-IsLatestOf _ _ _ found vendor e in
    (entries, response-eq-ok answer found r ∙ ap object has, best)

abbrev pub system_ota : String → String → String
system_ota arch system_type =
    "https://ota.waydro.id/system/lineage/waydroid_" <> (arch <> ("/" <> (system_type <> ".json")))

abbrev pub vendor_ota : String → String → String
vendor_ota arch vendor_type =
    "https://ota.waydro.id/vendor/waydroid_" <> (arch <> ("/" <> (vendor_type <> ".json")))

module _ {S : Type 0} (fetch_json : String → M S Json) where
  pub resolve_official-IsLatestOf :
      (arch system_type vendor_type : String) (s t : S) (builds : Builds)
      → resolve_official fetch_json arch system_type vendor_type s ≡ (ok builds, t)
      → (u : S) × (systems vendors : List Entry) × (fetch_json (system_ota arch system_type) s
          ≡ (ok (object (some systems)), u))
        × (fetch_json (vendor_ota arch vendor_type) u ≡ (ok (object (some vendors)), t))
        × IsLatestOf builds.system systems
        × IsLatestOf builds.vendor vendors
  unfolding resolve_official
  resolve_official-IsLatestOf arch system_type vendor_type s t builds h =
      let (answer, u, fetched, h1) = bind-eq-ok _ _ s t builds h in
      let (parsed, u', p, h2) = bind-eq-ok _ _ u t builds h1 in
      let (same, e) =
        query-eq-ok (λ _. parse_official_channel answer system_type vendor_type arch) u u' parsed
          p in
      let (answer', v, fetched', h3) = bind-eq-ok _ _ u' t builds h2 in
      let (vendor, v', q, h4) = bind-eq-ok _ _ v t builds h3 in
      let (same', e') = query-eq-ok (λ _. vendor_of answer' parsed.vendor.channel) v v' vendor q in
      let (systems, is_object, best) =
        parse_official_channel-IsLatestOf answer system_type vendor_type arch parsed e in
      let (vendors, is_object', best') =
        vendor_of-IsLatestOf answer' parsed.vendor.channel vendor e' in
      let built : record { system = parsed.system; vendor = vendor } ≡ builds = cc in
      (
        u,
        systems,
        vendors,
        (cc),
        (cc),
        subst (λ b. IsLatestOf b.system systems) built best,
        subst (λ b. IsLatestOf b.vendor vendors) built best',
      )
