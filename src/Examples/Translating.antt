-- ===== src/Examples/Translating.antt =====
-- Installing the default ARM translation layer on a machine that has its files.
use waydroid.ArmTranslation.Laws.{IsGenuine, install-IsGenuine}
use waydroid.ArmTranslation.Manage.{Archives, Source, install, regenerate_base_props}
use waydroid.ArmTranslation.{is_installed}
use waydroid.Base.{◌≡◌, refl, inl, true, false, [], ◌∷◌, ok, pure}
use waydroid.Examples.Everything.{everything}
use waydroid.Host.Machine.{Machine, machine, bare}

abbrev archives : Archives machine
archives = record {
  md5 = λ p m. ok "0b2207c490fcb400aa5c87fcf0d52d38";
  is_tarfile = λ p m. false;
  is_zipfile = λ p m. true;
  extract_tar = λ p dest. pure tt;
  extract_zip = λ p dest. pure tt;
  infolist = λ p m. ok [];
  chmod_as = λ member p. pure tt;
  walk = λ p m. [];
  remove_tree = λ p m. m;
  copy_into = λ p q. pure tt;
  abspath = λ p m. p;
}

abbrev with_layer : Machine
with_layer = record bare {
  files =
      ("/proc/cpuinfo", "flags: ssse3 sse4_2")
      ∷ ("/var/lib/waydroid/waydroid.cfg", "")
      ∷ ("/var/lib/waydroid/arm-translation/system/lib64/libndk_translation.so", "")
      ∷ ("/var/lib/waydroid/arm-translation/system/lib64/arm64/libc.so", "")
      ∷ ("/var/lib/waydroid/arm-translation/system/etc/init/ndk_translation.rc", "")
      ∷ [];
  dirs =
      "/var/lib/waydroid/arm-translation.extract/lib64"
      ∷ "/var/lib/waydroid/arm-translation.extract/etc" ∷ [];
  configs =
      (
        "/var/lib/waydroid/waydroid.cfg",
        ("waydroid", ("system_ota", "None") ∷ ("vendor_ota", "None") ∷ []) ∷ [],
      )
      ∷ [];
}

abbrev nothing_given : Source
nothing_given = record { source = ""; archive = ""; url = "" }

install-IsGenuine_example :
    IsGenuine machine archives with_layer
    × (u : Machine) × (is_installed machine u ≡ true)
    × (regenerate_base_props machine archives u
        ≡ (ok tt, (install machine archives nothing_given with_layer).1))
unfolding everything
install-IsGenuine_example =
    install-IsGenuine machine archives nothing_given with_layer
      (install machine archives nothing_given with_layer).1 (refl, inl (refl, refl)) refl
