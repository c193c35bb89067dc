-- ===== src/Examples/Releases.antt =====
-- A release package of the official channel, on a machine where every call succeeds.
use waydroid.Base.{
  ◌≡◌, refl, ℕ, String, true, false, none, some, List, [], ◌∷◌, ◌++◌, ok, pure, modify, M, NoneType,
  ◌<>◌, string_eq, contains, Option,
}
use waydroid.Release.Channels.{Entry, Published, object, Builds, Chosen, date}
use waydroid.Release.Tools.{Tools}
use waydroid.Release.Package.{Arguments, main}
use waydroid.Release.Checked.{StagesLatest, main-IsStaged}
use waydroid.Release.Prebuilts.{IsDeepestRoot, find_prebuilts_root-deepest}
use waydroid.Examples.Everything.{everything}

abbrev entry : ℕ → Entry
entry time = record {
  url = some "https://x/i.zip";
  filename = some "i.zip";
  id = some "5ca1e";
  datetime = some time;
}

abbrev noted : List String → M (List (List String)) NoneType
noted command = modify (λ log. log ++ (command ∷ []))

-- The state is the list of the commands so far.
abbrev bench : Tools
bench = record {
  State = List (List String);
  fetch_json = λ url. pure (object (some (entry 3 ∷ entry 7 ∷ [])));
  fetch_file = λ url dest. noted ("fetch" ∷ url ∷ dest ∷ []);
  sha256 = λ p s. ok "5ca1e";
  md5 = λ p s. ok "0b2207c490fcb400aa5c87fcf0d52d38";
  infolist = λ p s. ok (record { filename = "system.img"; has_mode = false; is_dir = false } ∷ []);
  extract_member = λ p m dest. noted ("extract" ∷ p ∷ dest ∷ []);
  extract_all = λ p dest. noted ("unzip" ∷ p ∷ dest ∷ []);
  chmod_as = λ m p. noted ("chmod" ∷ p ∷ []);
  chmod = λ p. noted ("chmod" ∷ p ∷ []);
  is_dir = λ p s. contains ("/x/a/lib64" ∷ "/x/a/etc" ∷ []) p;
  list_dir = λ p s. ok [];
  walk = λ p s. ("/x/a", "lib64" ∷ "lib" ∷ "etc" ∷ [], []) ∷ [];
  mkdtemp = λ p. pure "/tmp/w";
  make_dirs = λ p. noted ("mkdir" ∷ p ∷ []);
  ensure_dirs = λ p. noted ("mkdir" ∷ p ∷ []);
  copy = λ p q. noted ("cp" ∷ p ∷ q ∷ []);
  copy_tree = λ p q. noted ("cp" ∷ p ∷ q ∷ []);
  copy_tree_links = λ p q. noted ("cp" ∷ p ∷ q ∷ []);
  read = λ p s. ok "";
  write = λ p text. noted ("write" ∷ p ∷ []);
  remove = λ p. noted ("rm" ∷ p ∷ []);
  remove_tree = λ p log. log ++ (("rm" ∷ p ∷ []) ∷ []);
  tar = λ out dir name. noted ("tar" ∷ out ∷ []);
  repository = λ s. "/src";
  relpath = λ p root. p;
  install_sh = "";
  notice = "";
}

abbrev arguments : Arguments
arguments = record {
  tooling = "/tree";
  channel = "official";
  arch = "x86_64";
  system_type = "VANILLA";
  vendor_type = "MAINLINE";
  out = "dist";
  no_arm_translation = true;
  version = "1.6.4";
}

main-IsStaged_example : StagesLatest bench arguments []
unfolding everything
main-IsStaged_example = main-IsStaged bench arguments [] (main bench arguments []).1 refl refl

find_prebuilts_root-deepest_example :
    (◌≡◌ {A = List (List String)} [] []) × IsDeepestRoot bench "/x" "/x/a" []
unfolding everything
find_prebuilts_root-deepest_example = find_prebuilts_root-deepest bench "/x" "/x/a" [] [] refl

abbrev with_assets : String → List (Option String) → Published
with_assets tag names = record {
  tag_name = some tag;
  published_at = some "2026-07-17";
  assets = some names;
}

abbrev releases : List Published
releases =
    with_assets "v1" (some "notes.txt" ∷ [])
    ∷ with_assets "v2" (
        some "lineage-23.2-20260717-VANILLA-waydroid_x86_64-system.zip"
        ∷ some "lineage-23.2-20260717-MAINLINE-waydroid_x86_64-vendor.zip"
        ∷ [])
    ∷ []

abbrev chosen : String → Chosen
chosen name = record {
  url = some ("https://github.com/WayDroid-ATV/waydroid-builds/releases/download/v2/" <> name);
  filename = some name;
  sha256 = none;
  datetime = some (date "2026-07-17");
  channel = "WayDroid-ATV/waydroid-builds/v2/x86_64/VANILLA";
}

abbrev builds : Builds
builds = record {
  system = chosen "lineage-23.2-20260717-VANILLA-waydroid_x86_64-system.zip";
  vendor = chosen "lineage-23.2-20260717-MAINLINE-waydroid_x86_64-vendor.zip";
}
