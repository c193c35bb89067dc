-- ===== src/Lxc/BaseProps/Overrides.antt =====
-- tools/helpers/lxc.py: what a value of the configuration does to the properties.
use waydroid.Base.{
  ◌≡◌, refl, ap, String, ◌<>◌, true, false, List, [], ◌∷◌, ◌++◌, arith, inl, inr, Bool-cases,
  if◌then◌else◌,
}
use waydroid.Base.Text.{has_text}
use waydroid.Lxc.BaseProps.{drop_matching, override}

-- The lines without the text `k=`
unfoldable pub without : String → List String → List String
without k [] = []
without k (elem ∷ rest) =
    let kept = without k rest in if has_text elem (k <> "=") then kept else elem ∷ kept

-- No line with the text stands right behind another.
abbrev pub IsSparse : String → List String → Type 0
IsSparse k [] = Unit
IsSparse k (elem ∷ []) = Unit
IsSparse k (elem ∷ next ∷ rest) =
    (has_text elem (k <> "=") ≡ true → has_text next (k <> "=") ≡ false) × IsSparse k (next ∷ rest)

IsSparse-tail : (k elem : String) (rest : List String) → IsSparse k (elem ∷ rest) → IsSparse k rest
IsSparse-tail k elem [] h = tt
IsSparse-tail k elem (next ∷ rest) (_, h) = h

drop_matching-without :
    (k : String) (props : List String) → IsSparse k props → drop_matching k props ≡ without k props
unfolding drop_matching without
drop_matching-without k [] sparse = refl
drop_matching-without k (elem ∷ []) sparse = refl
drop_matching-without k (elem ∷ next ∷ rest) (apart, sparse) =
    let skipped = drop_matching-without k rest (IsSparse-tail k next rest sparse) in
    let kept = drop_matching-without k (next ∷ rest) sparse in
    elim (Bool-cases (has_text elem (k <> "="))) [
      | inl e ↦ let free = apart e in ground (arith, skipped, kept, free)
      | inr e ↦ ground (arith, kept)
    ]

-- Where no line with the text of a key and an equals sign stands right behind another, an
-- override of the key removes all such lines, keeps all others in their order, and adds the
-- line of the new value at the end.
pub override-without :
    (k v : String) (props : List String)
    → IsSparse k props
    → override k v props ≡ without k props ++ ((k <> ("=" <> v)) ∷ [])
unfolding override
override-without k v props sparse =
    ap (λ l. l ++ ((k <> ("=" <> v)) ∷ [])) (drop_matching-without k props sparse)
