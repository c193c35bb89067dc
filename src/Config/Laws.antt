-- ===== src/Config/Laws.antt =====
-- What a configuration holds once it is loaded, key by key.
use waydroid.Base.{
  ◌≡◌, refl, sym, ◌∙◌, ◌⊎◌, String, true, false, Option, none, some, List, [], ◌∷◌, arith,
}
use waydroid.Base.{
  ok, raised, M, pure, of_result, key_error, ap, contains, string_eq, ◌==◌, if◌then◌else◌,
}
use waydroid.Base.Dict
use waydroid.Base.Dict.{Dict, is_some, lookup-insert, lookup-insert_self}
use waydroid.Base.Dict.{lookup-insert_ne, lookup-erase, has_key-lookup}
use mathlib.Core.Path.{subst}
use waydroid.Base.{inl}
use waydroid.Base.Refusal.{query-eq-ok, then-eq-ok, then_result-eq-ok}
use waydroid.Config.{config_path, work, load, loaded, parse_file, save}
use waydroid.Config.{config_keys, defaults, channels_config_keys, channels_defaults, add_default}
use waydroid.Config.{drop_fixed, fill, section_of, complete, complete_channels, get, get?, set}
use waydroid.Host.{Host, Config}

abbrev pub or_default : Option String → Option String → Option String
or_default none value = value
or_default (some value) _ = some value

-- The value of `k` in a section to which the defaults have been applied: a configurable key has
-- its own value or else the default, a key with a fixed value is gone, any other is kept.
abbrev pub effective :
    List String → Dict String String → Dict String String → String → Option String
effective configurable values section k =
    if contains configurable k
    then or_default (Dict.lookup k section) (Dict.lookup k values)
    else if is_some (Dict.lookup k values)
    then none
    else Dict.lookup k section

lookup-add_default :
    (configurable : List String) (k key value : String) (section : Dict String String)
    → Dict.lookup k (add_default configurable key value section) ≡ (
        if k == key
        then (if contains configurable key
            then or_default (Dict.lookup key section) (some value)
            else Dict.lookup key section)
        else Dict.lookup k section)
unfolding add_default
lookup-add_default configurable k key value section =
    ground (arith, lookup-insert k key value section, has_key-lookup key section)

lookup-drop_fixed :
    (configurable : List String) (k key : String) (section : Dict String String)
    → Dict.lookup k (drop_fixed configurable key section) ≡ (
        if k == key
        then (if contains configurable key then Dict.lookup key section else none)
        else Dict.lookup k section)
unfolding drop_fixed
lookup-drop_fixed configurable k key section =
    ground (arith, lookup-erase k key section, has_key-lookup key section)

lookup-fill :
    (configurable : List String) (values section : Dict String String) (k : String)
    → Dict.lookup k (fill configurable values section) ≡ effective configurable values section k
unfolding fill Dict.lookup
lookup-fill configurable [] section k = ground arith
lookup-fill configurable ((key, value) ∷ more) section k = ground (
  arith,
  lookup-fill configurable more
      (drop_fixed configurable key (add_default configurable key value section)) k,
  lookup-drop_fixed configurable k key (add_default configurable key value section),
  lookup-add_default configurable k key value section,
)

section_of-insert_self :
    (name : String) (section : Dict String String) (cfg : Config)
    → section_of name (Dict.insert name section cfg) ≡ section
unfolding section_of
section_of-insert_self name section cfg = rw lookup-insert_self

section_of-insert_ne :
    (name other : String) (section : Dict String String) (cfg : Config)
    → (name == other) ≡ false
    → section_of name (Dict.insert other section cfg) ≡ section_of name cfg
unfolding section_of
section_of-insert_ne name other section cfg h = rw (lookup-insert_ne _ _ section cfg h)

waydroid-ne-properties : ◌==◌ {A = String} "waydroid" "properties" ≡ false
unfolding string_eq
waydroid-ne-properties = refl

-- The value of every key of a loaded configuration: a configurable key has its own value or
-- else its default, another key with a default is gone, and any other key keeps its value.
pub get?-complete :
    (cfg : Config) (k : String)
    → get? k (complete cfg) ≡ effective config_keys defaults (section_of "waydroid" cfg) k
unfolding complete get?
get?-complete cfg k =
    rw (section_of-insert_ne _ _ _ _ waydroid-ne-properties, section_of-insert_self)
      (lookup-fill config_keys defaults (section_of "waydroid" cfg) k)

-- The same for the OTA channels.
pub lookup-complete_channels :
    (cfg : Config) (k : String)
    → Dict.lookup k (section_of "channels" (complete_channels cfg))
      ≡ effective channels_config_keys channels_defaults (section_of "channels" cfg) k
unfolding complete_channels
lookup-complete_channels cfg k =
    rw section_of-insert_self
      (lookup-fill channels_config_keys channels_defaults (section_of "channels" cfg) k)

effective_idem :
    (configurable : List String) (values section filled : Dict String String) (k : String)
    → Dict.lookup k filled ≡ effective configurable values section k
    → effective configurable values filled k ≡ effective configurable values section k
effective_idem configurable values section filled k h = ground arith

-- Loading what a load has made changes no value.
pub get?-complete-complete :
    (cfg : Config) (k : String) → get? k (complete (complete cfg)) ≡ get? k (complete cfg)
unfolding get?
get?-complete-complete cfg k =
    get?-complete (complete cfg) k
    ∙ effective_idem config_keys defaults (section_of "waydroid" cfg) _ k (get?-complete cfg k)
    ∙ sym (get?-complete cfg k)

pub get?-set :
    (k key value : String) (cfg : Config)
    → get? k (set key value cfg) ≡ (if k == key then some value else get? k cfg)
unfolding get? set
get?-set k key value cfg = rw (section_of-insert_self, lookup-insert)

-- A key that `load` keeps.
abbrev pub IsKept : String → Type 0
IsKept key = (contains config_keys key ≡ true) ⊎ (Dict.lookup key defaults ≡ none)

effective-set :
    (key value k : String) (old : Dict String String) (section changed : Dict String String)
    → IsKept key
    → Dict.lookup k section ≡ effective config_keys defaults old k
    → Dict.lookup k changed ≡ (if k == key then some value else Dict.lookup k section)
    → effective config_keys defaults changed k
      ≡ (if k == key then some value else effective config_keys defaults old k)
effective-set key value k old section changed kept e h = ground arith

-- Completing a changed configuration again gives the new value for the key, and the old ones else.
get?-complete-set :
    (cfg : Config) (key value k : String)
    → IsKept key
    → get? k (complete (set key value (complete cfg)))
      ≡ (if k == key then some value else get? k (complete cfg))
unfolding get?
get?-complete-set cfg key value k kept = rw (get?-complete cfg k) (
    get?-complete (set key value (complete cfg)) k
    ∙ effective-set key value k (section_of "waydroid" cfg) _ _ kept (get?-complete cfg k)
        (get?-set k key value (complete cfg)))

-- A key that the configuration has is read.
pub get-found :
    {S : Type 0} (key : String) (cfg : Config) (value : String) (s : S)
    → get? key cfg ≡ some value
    → get key cfg s ≡ (ok value, s)
unfolding get get?
get-found {S} key cfg value s found = go _ found
  where
    go :
        (o : Option String)
        → o ≡ some value
        → (let r : M S String = elim o [
          | none ↦ of_result (raised (key_error key))
          | some v ↦ pure v
        ] in
              r)
            s
          ≡ (ok value, s)
    go none h = cc
    go (some v) h = ap (λ v. (ok v, s)) (let e : v ≡ value = cc in e)

module _ (H : Host) where
  open H use {State}

  -- A file that has been written with a configuration is there, and is read back as it.
  abbrev pub ReadsBack : Config → Type 0
  ReadsBack cfg =
      (s t : State)
      → H.write_config config_path cfg s ≡ (ok tt, t)
      → (H.is_file config_path t ≡ true) × (H.read_config config_path t ≡ ok cfg)

  load-read :
      (cfg : Config) (t : State)
      → (H.is_file config_path t ≡ true) × (H.read_config config_path t ≡ ok cfg)
      → load H t ≡ (ok (complete cfg), t)
  unfolding load loaded
  load-read cfg t (there, read) = rw (there, read) refl

  load-complete :
      (cfg : Config) (s t : State) → load H s ≡ (ok cfg, t) → (raw : Config) × (complete raw ≡ cfg)
  unfolding load loaded
  load-complete cfg s t h =
      let (_, r) = query-eq-ok (loaded H) s t cfg h in
      let (raw, _, made) =
        then_result-eq-ok (parse_file H config_path t) (λ c. ok (complete c)) cfg r in
      (raw, ok-injective made)
    where
      ok-injective : {a b : Config} → ok a ≡ ok b → a ≡ b
      ok-injective e = cc

  -- Where the host reads the changed configuration back as it was written, then after a
  -- configurable key of a loaded configuration has been set and the result saved, loading
  -- returns, with the new value for that key and the old value for every other configurable
  -- key.
  pub load-save :
      (cfg : Config) (key value k : String) (s t u v : State)
      → contains config_keys key ≡ true
      → contains config_keys k ≡ true
      → ReadsBack (set key value cfg)
      → load H s ≡ (ok cfg, t)
      → save H (set key value cfg) u ≡ (ok tt, v)
      → (changed : Config) × (load H v ≡ (ok changed, v))
        × (get? k changed ≡ (if k == key then some value else get? k cfg))
  unfolding save
  load-save cfg key value k s t u v configurable asked reads was saved =
      let (raw, made) = load-complete cfg s t was in
      let (_, w, _, written) = then-eq-ok (H.make_dirs work) _ u v tt saved in
      (
        complete (set key value cfg),
        load-read (set key value cfg) v (reads w v written),
        subst
            (λ c. get? k (complete (set key value c)) ≡ (if k == key then some value else get? k c))
            made (get?-complete-set raw key value k (inl configurable)),
      )
