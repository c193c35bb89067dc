-- ===== src/Release/Channels.antt =====
-- tools/release/package.py: which builds a channel offers. A key that a JSON object need not have
-- is an option; what is not looked at is left out.
use waydroid.Base.{
  ℕ, String, ◌<>◌, Bool, true, false, not, ◌&&◌, Option, none, some, map, List, [], ◌∷◌,
}
use waydroid.Base.{
  M, pure, raise, query, Result, ok, raised, value_error, key_error, attribute_error,
}
use waydroid.Base.{then_result, ◌>>=◌, ◌==◌, string_eq, ltb, if◌then◌else◌, starts_with}
use waydroid.Base.Text.{str, has_text}

-- A member of an OTA channel's `response`.
pub record Entry : Type 0 where
  pub url : Option String
  pub filename : Option String
  pub id : Option String
  pub datetime : Option ℕ

-- A release on GitHub, with the names of its assets.
pub record Published : Type 0 where
  pub tag_name : Option String
  pub published_at : Option String
  pub assets : Option (List (Option String))

-- What `fetch_json` returns: an object, of which `response` is read, or a list of releases.
pub data Json : Type 0 where
  object : Option (List Entry) → Json
  array : List Published → Json

-- The time of a build, which is a number on the official channel and a text on GitHub.
pub data Stamp : Type 0 where
  number : ℕ → Stamp
  date : String → Stamp

pub record Chosen : Type 0 where
  pub url : Option String
  pub filename : Option String
  pub sha256 : Option String
  pub datetime : Option Stamp
  pub channel : String

pub record Builds : Type 0 where
  pub system : Chosen
  pub vendor : Chosen

-- `s or ""`, for a text that may be missing
abbrev pub text_or_empty : Option String → String
text_or_empty none = ""
text_or_empty (some s) = s

-- `b.get("datetime", 0)`
abbrev pub time_of : Option ℕ → ℕ
time_of none = 0
time_of (some n) = n

-- `max(build, *rest, key=...)`: the first of the latest.
unfoldable pub latest : Entry → List Entry → Entry
latest build [] = build
latest build (next ∷ rest) =
    latest (if ltb (time_of build.datetime) (time_of next.datetime) then next else build) rest

abbrev pub stamp_of : Option ℕ → Option Stamp
stamp_of none = none
stamp_of (some n) = some (number n)

-- `if not sha: raise ValueError(message)`
unfoldable pub demand_sum : String → Option String → Result String
demand_sum message id =
    if text_or_empty id == "" then raised (value_error message) else ok (text_or_empty id)

-- `build[key]`
unfoldable pub demand_key : String → Option String → Result String
demand_key key none = raised (key_error key)
demand_key key (some s) = ok s

unfoldable pub chosen_of : String → String → Entry → Result Chosen
chosen_of sha_message channel build = then_result (demand_sum sha_message build.id) (λ sum.
    then_result (demand_key "url" build.url) (λ url.
      then_result (demand_key "filename" build.filename) (λ filename. ok (record {
        url = some url;
        filename = some filename;
        sha256 = some sum;
        datetime = stamp_of build.datetime;
        channel = channel;
      }))))

-- The latest build, if it has a checksum, a URL and a file name.
unfoldable pub pick : String → String → String → Option (List Entry) → Result Chosen
pick empty_message sha_message channel none = raised (value_error empty_message)
pick empty_message sha_message channel (some []) = raised (value_error empty_message)
pick empty_message sha_message channel (some (build ∷ rest)) =
    chosen_of sha_message channel (latest build rest)

-- `data.get("response", [])`: a list has no such method.
unfoldable pub response : Json → Result (Option (List Entry))
response (object builds) = ok builds
response (array _) = raised (attribute_error "get")

-- The vendor's build is filled in by `resolve_builds`.
unfoldable pub parse_official_channel : Json → String → String → String → Result Builds
parse_official_channel answer system_type vendor_type arch =
    then_result (response answer) (λ builds.
      then_result
        (pick "Official channel has no builds" "Official system build has no SHA-256 id"
          ("official/" <> (arch <> ("/" <> system_type))) builds)
        (λ system. ok (record {
          system = system;
          vendor = record {
            url = none;
            filename = none;
            sha256 = none;
            datetime = none;
            channel = "official/" <> (arch <> ("/" <> vendor_type));
          };
        })))

-- What `_asset_matches` says of a name; None is `none`.
pub data AssetKind : Type 0 where
  system_asset combined_asset : AssetKind

unfoldable pub asset_matches : String → String → String → Option AssetKind
asset_matches filename arch system_type =
    let base = "waydroid_" <> arch in
    if has_text filename ("-" <> (system_type <> ("-" <> (base <> "-system.zip"))))
    then some system_asset
    else if has_text filename ("-UNOFFICIAL-" <> (base <> ".zip"))
    then some combined_asset
    else none

abbrev pub community_repo : String
community_repo = "WayDroid-ATV/waydroid-builds"

unfoldable pub release_asset_url : Published → String → Result String
release_asset_url release name = elim release.tag_name [
  | none ↦ raised (key_error "tag_name")
  | some tag ↦ ok (
      "https://github.com/"
      <> (community_repo <> ("/releases/download/" <> (tag <> ("/" <> name)))))
]

-- `[a.get("name", "") for a in release.get("assets", [])]`
abbrev pub asset_names : Published → List String
asset_names release = elim release.assets [ none ↦ [] | some names ↦ map text_or_empty names ]

-- The last asset of a kind for the Android version, `found` being what earlier names gave.
unfoldable pub asset_of_kind :
    (Option AssetKind → Bool) → ℕ → String → String → Option String → List String → Option String
asset_of_kind wanted android_major arch system_type found [] = found
asset_of_kind wanted android_major arch system_type found (name ∷ rest) =
    asset_of_kind wanted android_major arch system_type
      (if starts_with name ("lineage-" <> (str android_major <> "."))
          && wanted (asset_matches name arch system_type)
        then some name
        else found)
      rest

abbrev pub is_system : Option AssetKind → Bool
is_system none = false
is_system (some system_asset) = true
is_system (some combined_asset) = false

abbrev pub is_combined : Option AssetKind → Bool
is_combined none = false
is_combined (some system_asset) = false
is_combined (some combined_asset) = true

-- The first name with `f"-MAINLINE-waydroid_{arch}-vendor.zip"` in it
unfoldable pub vendor_asset : String → List String → Option String
vendor_asset arch [] = none
vendor_asset arch (name ∷ rest) =
    let later = vendor_asset arch rest in
    if has_text name ("-MAINLINE-waydroid_" <> (arch <> "-vendor.zip")) then some name else later

abbrev pub date_of : Option String → Option Stamp
date_of none = none
date_of (some day) = some (date day)

-- `x or y`, and a truth test, for names of assets: an empty name counts as none.
abbrev pub or_name : Option String → Option String → Option String
or_name x y = if text_or_empty x == "" then y else x

unfoldable pub names_of : ℕ → String → String → Published → Option (String × Option String)
names_of android_major arch system_type release =
    let assets = asset_names release in
    let system_image = asset_of_kind is_system android_major arch system_type none assets in
    let combined_image = asset_of_kind is_combined android_major arch system_type none assets in
    if not (text_or_empty system_image == "")
    then some (text_or_empty system_image, vendor_asset arch assets)
    else if not (text_or_empty combined_image == "")
    then some (text_or_empty combined_image, combined_image)
    else none

abbrev pub community_channel : Published → String → String → String
community_channel release arch system_type =
    community_repo
    <> ("/" <> (text_or_empty release.tag_name <> ("/" <> (arch <> ("/" <> system_type)))))

unfoldable pub community_build : Published → String → String → String → Result Chosen
community_build release arch system_type name = then_result (release_asset_url release name) (λ url.
    ok (record {
      url = some url;
      filename = some name;
      sha256 = none;
      datetime = date_of release.published_at;
      channel = community_channel release arch system_type;
    }))

unfoldable pub both_builds : Published → String → String → String → String → Result Builds
both_builds release arch system_type system_name vendor_name =
    then_result (community_build release arch system_type system_name) (λ system.
      then_result (community_build release arch system_type vendor_name)
        (λ vendor. ok (record { system = system; vendor = vendor })))

unfoldable pub builds_of : Published → String → String → String → Option String → Result Builds
builds_of release arch system_type system_name vendor_name =
    if text_or_empty vendor_name == ""
    then raised (
        value_error (
          "Release "
          <> (text_or_empty release.tag_name <> " has a system asset but no vendor asset")))
    else both_builds release arch system_type system_name (text_or_empty vendor_name)

unfoldable pub parse_community_releases : List Published → ℕ → String → String → Result Builds
parse_community_releases [] android_major arch system_type = raised (
    value_error (
      "No community release matches Android "
      <> (str android_major <> (", arch " <> (arch <> (", system type " <> system_type))))))
parse_community_releases (release ∷ rest) android_major arch system_type =
    let later = parse_community_releases rest android_major arch system_type in
    elim (names_of android_major arch system_type release) [
      | none ↦ later
      | some (system_name, vendor_name) ↦ builds_of release arch system_type system_name vendor_name
    ]

-- `COMMUNITY_ANDROID_MAJOR`
abbrev pub android_major_of : String → Option ℕ
android_major_of channel =
    if channel == "community-los22"
    then some 22
    else if channel == "community-los23"
    then some 23
    else none

-- `isinstance(releases, list)`
abbrev pub as_list : Json → Result (List Published)
as_list (array releases) = ok releases
as_list (object _) = raised (value_error "Community releases API returned no data")

-- What `resolve_builds` fills in for the vendor.
unfoldable pub vendor_of : Json → String → Result Chosen
vendor_of vendor_data channel = then_result (response vendor_data) (λ builds.
    pick "Official vendor channel has no builds" "Official vendor build has no SHA-256 id" channel
      builds)

-- The network is the parameter `fetch_json`, as in the source.
module _ {S : Type 0} (fetch_json : String → M S Json) where
  unfoldable pub resolve_official : String → String → String → M S Builds
  resolve_official arch system_type vendor_type = do
    answer ← fetch_json (
        "https://ota.waydro.id/system/lineage/waydroid_"
        <> (arch <> ("/" <> (system_type <> ".json"))))
    builds ← query (λ _. parse_official_channel answer system_type vendor_type arch)
    vendor_data ←
        fetch_json
          ("https://ota.waydro.id/vendor/waydroid_" <> (arch <> ("/" <> (vendor_type <> ".json"))))
    vendor ← query (λ _. vendor_of vendor_data builds.vendor.channel)
    pure (record { system = builds.system; vendor = vendor })

  unfoldable pub resolve_community : ℕ → String → String → M S Builds
  resolve_community android_major arch system_type = do
    answer ←
        fetch_json ("https://api.github.com/repos/" <> (community_repo <> "/releases?per_page=10"))
    releases ← query (λ _. as_list answer)
    query (λ _. parse_community_releases releases android_major arch system_type)

  unfoldable pub resolve_builds : String → String → String → String → M S Builds
  resolve_builds channel arch system_type vendor_type = elim (channel == "official") [
    | true ↦ resolve_official arch system_type vendor_type
    | false ↦ elim (android_major_of channel) [
      | some android_major ↦ resolve_community android_major arch system_type
      | none ↦ raise (value_error ("Unknown channel: " <> channel))
    ]
  ]
