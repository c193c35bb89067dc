-- ===== src/Base/Dict.antt =====
-- Python's dicts, as association lists in insertion order.
use waydroid.Base.Equality.{Eq, ◌==◌, ==_refl, if◌then◌else◌}
use mathlib.Core.Path.{◌≡◌, refl, ap}
use mathlib.Core.Bool.{Bool, true, false}
use mathlib.Core.Option.{Option, none, some}
use mathlib.Core.List.{List, [], ◌∷◌}
use Prim.Native.String.{String}
use waydroid.Base.Equality.{string_eq}
use waydroid.Base.Effect.{Result, ok, raised, key_error}
use native.Mathlib.Omega.{arith}

abbrev pub Dict {ℓ κ} : Type ℓ → Type κ → Type (ℓ ⊔ κ)
Dict K V = List (K × V)

abbrev pub is_some {ℓ} : {A : Type ℓ} → Option A → Bool
is_some none = false
is_some (some _) = true

module _ {ℓ κ} {K : Type ℓ} {V : Type κ} ⦃e : Eq K⦄ where
  unfoldable pub lookup : K → Dict K V → Option V
  lookup k [] = none
  lookup k ((j, v) ∷ d) = if k == j then some v else lookup k d

  -- `d.get(k, default)`
  abbrev pub get_or : K → V → Dict K V → V
  get_or k value d = elim (lookup k d) [ none ↦ value | some v ↦ v ]

  -- `k in d`
  unfoldable pub has_key : K → Dict K V → Bool
  has_key k [] = false
  has_key k ((j, v) ∷ d) = if k == j then true else has_key k d

  -- `d[k] = v`
  unfoldable pub insert : K → V → Dict K V → Dict K V
  insert k v [] = (k, v) ∷ []
  insert k v ((j, w) ∷ d) = if k == j then (k, v) ∷ d else (j, w) ∷ insert k v d

  -- `del d[k]`, where `k` is known to be a key
  unfoldable pub erase : K → Dict K V → Dict K V
  erase k [] = []
  erase k ((j, w) ∷ d) = let rest = erase k d in if k == j then rest else (j, w) ∷ rest

  pub lookup-insert :
      (j k : K) (v : V) (d : Dict K V)
      → lookup j (insert k v d) ≡ (if j == k then some v else lookup j d)
  unfolding insert lookup
  lookup-insert j k v [] = refl
  lookup-insert j k v (_ ∷ d) = ground (arith, lookup-insert j k v d)

  pub lookup-insert_self : (k : K) (v : V) (d : Dict K V) → lookup k (insert k v d) ≡ some v
  lookup-insert_self k v d = rw (lookup-insert, ==_refl)

  pub lookup-insert_ne :
      (j k : K) (v : V) (d : Dict K V) → (j == k) ≡ false → lookup j (insert k v d) ≡ lookup j d
  lookup-insert_ne j k v d h = rw (lookup-insert, h)

  pub lookup-erase :
      (j k : K) (d : Dict K V) → lookup j (erase k d) ≡ (if j == k then none else lookup j d)
  unfolding erase lookup
  lookup-erase j k [] = ground arith
  lookup-erase j k (_ ∷ d) = ground (arith, lookup-erase j k d)

  pub has_key-lookup : (k : K) (d : Dict K V) → has_key k d ≡ is_some (lookup k d)
  unfolding has_key lookup
  has_key-lookup k [] = refl
  has_key-lookup k (_ ∷ d) = ground (arith, has_key-lookup k d)

-- `d[k]`
unfoldable pub item : String → Dict String String → Result String
unfolding lookup
item k d = elim (lookup k d) [ none ↦ raised (key_error k) | some v ↦ ok v ]

pub item-eq-ok : (k u : String) (d : Dict String String) → item k d ≡ ok u → lookup k d ≡ some u
unfolding item
item-eq-ok k u d h = go (lookup k d) h
  where
    go :
        (o : Option String)
        → (let r : Result String = elim o [ none ↦ raised (key_error k) | some v ↦ ok v ] in r)
          ≡ ok u
        → o ≡ some u
    go none e = cc
    go (some v) e = let same : v ≡ u = cc in ap some same
