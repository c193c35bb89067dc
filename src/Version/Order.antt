-- ===== src/Version/Order.antt =====
-- tools/helpers/version.py: the order of versions.
use waydroid.Base.{◌≡◌, refl, true, List, [], ◌∷◌, arith}
use waydroid.Base.Int.{ℤ, pos, negsuc}
use waydroid.Version.{le_ℤ, le_tuple}

-- `<=` on tuples is transitive.
le_ℤ_trans : (x y z : ℤ) → le_ℤ x y ≡ true → le_ℤ y z ≡ true → le_ℤ x z ≡ true
unfolding le_ℤ
le_ℤ_trans (pos a) (pos b) (pos c) p q = ground arith
le_ℤ_trans (pos a) (pos b) (negsuc c) p q = cc
le_ℤ_trans (pos a) (negsuc b) z p q = cc
le_ℤ_trans (negsuc a) (pos b) (pos c) p q = refl
le_ℤ_trans (negsuc a) (pos b) (negsuc c) p q = cc
le_ℤ_trans (negsuc a) (negsuc b) (pos c) p q = refl
le_ℤ_trans (negsuc a) (negsuc b) (negsuc c) p q = ground arith

pub le_tuple_trans :
    (xs ys zs : List ℤ) → le_tuple xs ys ≡ true → le_tuple ys zs ≡ true → le_tuple xs zs ≡ true
unfolding le_tuple
le_tuple_trans [] ys zs p q = refl
le_tuple_trans (x ∷ xs) [] zs p q = cc
le_tuple_trans (x ∷ xs) (y ∷ ys) [] p q = cc
le_tuple_trans (x ∷ xs) (y ∷ ys) (z ∷ zs) p q = ground (
  arith,
  le_ℤ_trans x y z,
  le_ℤ_trans z y x,
  le_ℤ_trans y z x,
  le_ℤ_trans z x y,
  le_tuple_trans xs ys zs,
)
