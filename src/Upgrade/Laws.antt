-- ===== src/Upgrade/Laws.antt =====
-- tools/actions/upgrader.py: what a migration does to the configuration, and which steps it takes.
use waydroid.Base.{◌≡◌, refl, ap, ◌∙◌, String, Bool, true, false, Option, none, some, [], ◌∷◌}
use waydroid.Base.{ok, raised, raise, Exc, Result, List, M, NoneType, pure, when}
use waydroid.Base.{nat_eq}
use waydroid.Base.Int.{ℤ, pos, int}
use waydroid.Base.Text.{split, strip, lstrip, rstrip, is_space}
use waydroid.Version.{versiontuple, le_tuple, le_ℤ}
use waydroid.Version.Order.{le_tuple_trans}
use waydroid.Base.{◌>>=◌, ◌>>◌, ◌==◌, string_eq, arith, if◌then◌else◌}
use waydroid.Base.Dict
use waydroid.Base.Dict.{Dict, is_some}
use waydroid.Config
use waydroid.Config.{work}
use waydroid.Config.Laws.{or_default, get?-set}
use waydroid.Host.{Host, Config}
use waydroid.Upgrade.{at_most, add_missing, tighten, secure_adb, keep_nodes, migrate_from}

or_default-none : (a : Option String) → a ≡ or_default a none
or_default-none none = refl
or_default-none (some v) = refl

-- One key, with the value `a` of the key that is looked at and `o` of the one that is set.
one_key :
    (same : Bool) (o a : Option String) (value : String)
    → (same ≡ true → a ≡ o)
    → (if is_some o then a else if same then some value else a)
      ≡ or_default a (if same then some value else none)
one_key true (some v) a value h = rw (h refl) refl
one_key true none a value h = rw (h refl) refl
one_key false (some v) a value h = or_default-none a
one_key false none a value h = or_default-none a

two_defaults :
    (same : Bool) (a later : Option String) (value : String)
    → or_default (or_default a (if same then some value else none)) later
      ≡ or_default a (if same then some value else later)
two_defaults true none later value = refl
two_defaults true (some v) later value = refl
two_defaults false none later value = refl
two_defaults false (some v) later value = refl

get?-set_missing :
    (k key value : String) (cfg : Config)
    → Config.get? k (if is_some (Config.get? key cfg) then cfg else Config.set key value cfg)
      ≡ or_default (Config.get? k cfg) (if k == key then some value else none)
get?-set_missing k key value cfg =
    pushed (Config.get? key cfg)
    ∙ one_key (k == key) (Config.get? key cfg) (Config.get? k cfg) value same_value
  where
    pushed :
        (o : Option String)
        → Config.get? k (if is_some o then cfg else Config.set key value cfg) ≡ (
            if is_some o
            then Config.get? k cfg
            else if k == key
            then some value
            else Config.get? k cfg)
    pushed none = get?-set k key value cfg
    pushed (some v) = refl

    same_value : (k == key) ≡ true → Config.get? k cfg ≡ Config.get? key cfg
    same_value h = elim (string_eq.dec k key) [
      | yes p ↦ ap (λ x. Config.get? x cfg) p
      | no n ↦ absurd (ground arith)
    ]

-- After the loop that writes down the names of the binder nodes, for every table of defaults,
-- each key has its old value, or else the table's, or else none.
pub get?-add_missing :
    (defaults : Dict String String) (k : String) (cfg : Config)
    → Config.get? k (add_missing defaults cfg)
      ≡ or_default (Config.get? k cfg) (Dict.lookup k defaults)
unfolding add_missing Dict.lookup
get?-add_missing [] k cfg = or_default-none (Config.get? k cfg)
get?-add_missing ((key, value) ∷ rest) k cfg =
    get?-add_missing rest k _
    ∙ ap (λ o. or_default o (Dict.lookup k rest)) (get?-set_missing k key value cfg)
    ∙ two_defaults (k == key) (Config.get? k cfg) (Dict.lookup k rest) value

-- The versions up to which a step is due.
abbrev pub v1_3_4 : List ℤ
v1_3_4 = pos 1 ∷ pos 3 ∷ pos 4 ∷ []

abbrev pub v1_6_0 : List ℤ
v1_6_0 = pos 1 ∷ pos 6 ∷ pos 0 ∷ []

abbrev pub v1_6_3 : List ℤ
v1_6_3 = pos 1 ∷ pos 6 ∷ pos 3 ∷ []

at_most-limit :
    (old limit : String) (v w : List ℤ)
    → versiontuple old ≡ ok v
    → versiontuple limit ≡ ok w
    → at_most old limit ≡ ok (le_tuple v w)
unfolding at_most
at_most-limit old limit v w p q = rw (p, q) refl

at_most-raised :
    (old limit : String) (e : Exc) → versiontuple old ≡ raised e → at_most old limit ≡ raised e
unfolding at_most
at_most-raised old limit e p = rw p refl

limit_1_3_4 : versiontuple "1.3.4" ≡ ok v1_3_4
unfolding versiontuple split nat_eq int strip lstrip rstrip is_space
limit_1_3_4 = refl

limit_1_6_0 : versiontuple "1.6.0" ≡ ok v1_6_0
unfolding versiontuple split nat_eq int strip lstrip rstrip is_space
limit_1_6_0 = refl

limit_1_6_3 : versiontuple "1.6.3" ≡ ok v1_6_3
unfolding versiontuple split nat_eq int strip lstrip rstrip is_space
limit_1_6_3 = refl

first_limits : le_tuple v1_3_4 v1_6_0 ≡ true
unfolding le_tuple le_ℤ
first_limits = refl

last_limits : le_tuple v1_6_0 v1_6_3 ≡ true
unfolding le_tuple le_ℤ
last_limits = refl

module _ (H : Host) where
  open H use {State}

  -- The steps that are due for a version: the last three, two, one or none of them.
  unfoldable pub due : List ℤ → M State NoneType
  due v =
      if le_tuple v v1_3_4
      then tighten H >> (secure_adb H >> keep_nodes H)
      else if le_tuple v v1_6_0
      then secure_adb H >> keep_nodes H
      else if le_tuple v v1_6_3
      then keep_nodes H
      else pure tt

  unfoldable pub due_from : Result (List ℤ) → M State NoneType
  due_from (ok v) = due v
  due_from (raised e) = raise e

  guarded :
      (a b c : Bool) (x y z : M State NoneType)
      → (a ≡ true → b ≡ true)
      → (b ≡ true → c ≡ true)
      → (when a x >> (when b y >> when c z))
        ≡ (if a then x >> (y >> z) else if b then y >> z else if c then z else pure tt)
  unfolding ◌>>◌
  guarded true true true x y z p q = refl
  guarded false true true x y z p q = refl
  guarded false false true x y z p q = refl
  guarded false false false x y z p q = refl
  guarded true false c x y z p q = let e : false ≡ true = p refl in absurd (cc e)
  guarded a true false x y z p q = let e : false ≡ true = q refl in absurd (cc e)

  -- For every recorded version, migrate_from raises and changes nothing where the version
  -- cannot be read; otherwise it takes, one after the other, all three steps for a version up
  -- to 1.3.4, the last two for one up to 1.6.0, the last for one up to 1.6.3, and none for a
  -- later one.
  pub migrate_from-due :
      (old_ver : String) (s : State) → migrate_from H old_ver s ≡ due_from (versiontuple old_ver) s
  unfolding due_from due migrate_from ◌>>=◌ ◌>>◌
  migrate_from-due old_ver s = go (versiontuple old_ver) refl
    where
      go :
          (r : Result (List ℤ)) → versiontuple old_ver ≡ r → migrate_from H old_ver s ≡ due_from r s
      go (raised e) p = rw (at_most-raised old_ver "1.3.4" e p) refl
      go (ok v) p =
          rw
            (
              at_most-limit old_ver "1.3.4" v v1_3_4 p limit_1_3_4,
              at_most-limit old_ver "1.6.0" v v1_6_0 p limit_1_6_0,
              at_most-limit old_ver "1.6.3" v v1_6_3 p limit_1_6_3,
            )
            (ap (λ f. f s)
              (guarded (le_tuple v v1_3_4) (le_tuple v v1_6_0) (le_tuple v v1_6_3) (tighten H)
                (secure_adb H) (keep_nodes H) (λ h. le_tuple_trans v v1_3_4 v1_6_0 h first_limits)
                (λ h. le_tuple_trans v v1_6_0 v1_6_3 h last_limits)))
