-- ===== src/Release/Community.antt =====
-- tools/release/package.py: which of the community's releases is taken.
use waydroid.Base.{◌≡◌, ◌⊎◌, ℕ, String, ◌<>◌, Bool, true, ◌&&◌, Option, none, some}
use waydroid.Base.{List, [], ◌∷◌, ◌++◌, starts_with}
use waydroid.Base.Text.{str}
use waydroid.Release.Channels.{
  Published, Chosen, Builds, AssetKind, asset_matches, asset_names, names_of,
}
use waydroid.Release.Channels.{is_system, is_combined, community_repo}
use waydroid.Release.Choice.{IsIn}

abbrev pub asset_url : String → String → String
asset_url tag name =
    "https://github.com/" <> (community_repo <> ("/releases/download/" <> (tag <> ("/" <> name))))

-- No release of the list has an asset that is wanted.
abbrev pub NoneOffers : ℕ → String → String → List Published → Type 0
NoneOffers android_major arch system_type [] = Unit
NoneOffers android_major arch system_type (release ∷ rest) =
    (names_of android_major arch system_type release ≡ none)
    × NoneOffers android_major arch system_type rest

-- A build whose file is an asset of the release, without a checksum, at the release's own URL.
abbrev pub IsAssetOf : Chosen → Published → Type 0
IsAssetOf chosen release =
    (tag name : String) × (release.tag_name ≡ some tag)
    × IsIn name (asset_names release)
    × (chosen.filename ≡ some name)
    × (chosen.sha256 ≡ none)
    × (chosen.url ≡ some (asset_url tag name))

-- The system image's name: it begins with the Android version, and is one of the kind.
abbrev pub IsWanted : (Option AssetKind → Bool) → ℕ → String → String → String → Type 0
IsWanted wanted android_major arch system_type name =
    (starts_with name ("lineage-" <> (str android_major <> "."))
      && wanted (asset_matches name arch system_type))
    ≡ true

-- The two names that a release offers are its assets, and the first is of the Android version, the
-- architecture and the system type.
abbrev pub IsOffer : ℕ → String → String → Published → String × Option String → Type 0
IsOffer android_major arch system_type release (system_name, vendor_name) =
    IsIn system_name (asset_names release)
    × (IsWanted is_system android_major arch system_type system_name
        ⊎ IsWanted is_combined android_major arch system_type system_name)
    × ((name : String) → vendor_name ≡ some name → IsIn name (asset_names release))

-- The builds come from one release of the list, before which no release offers anything wanted.
abbrev pub IsFirstOf : ℕ → String → String → Builds → List Published → Type 0
IsFirstOf android_major arch system_type builds releases =
    (before : List Published) × (release : Published) × (behind : List Published) × (releases
      ≡ before ++ (release ∷ behind))
    × NoneOffers android_major arch system_type before
    × IsAssetOf builds.system release
    × IsAssetOf builds.vendor release
    × (system_name : String) × (builds.system.filename ≡ some system_name)
    × (IsWanted is_system android_major arch system_type system_name
        ⊎ IsWanted is_combined android_major arch system_type system_name)
