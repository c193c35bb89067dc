-- ===== src/Release/Prebuilts.antt =====
-- tools/release/package.py: which directory of the translation layer's archive is taken.
use waydroid.Base.{
  ◌≡◌, ap, ◌∙◌, sym, ◌⊎◌, inl, inr, ℕ, ◌≤◌, String, Bool, true, false, List, [], ◌∷◌,
}
use mathlib.Core.Path.{subst}
use waydroid.Base.{◌>>=◌, arith, Bool-cases, ok, leb, if◌then◌else◌}
use waydroid.Base.Refusal.{query-eq-ok}
use waydroid.Release.Choice.{IsIn}
use waydroid.Release.Tools.{Tools}
use waydroid.Release.Package.{
  depth, insert_deepest, sort_deepest, candidates, has_prebuilts, first_root, find_prebuilts_root,
}

-- No path of the list is deeper.
AllNoDeeper : ℕ → List String → Type 0
AllNoDeeper n [] = Unit
AllNoDeeper n (x ∷ xs) = (depth x ≤ n) × AllNoDeeper n xs

IsDeepestFirst : List String → Type 0
IsDeepestFirst [] = Unit
IsDeepestFirst (x ∷ xs) = AllNoDeeper (depth x) xs × IsDeepestFirst xs

AllNoDeeper-trans : (m n : ℕ) (xs : List String) → m ≤ n → AllNoDeeper m xs → AllNoDeeper n xs
unfolding AllNoDeeper
AllNoDeeper-trans m n [] le a = tt
AllNoDeeper-trans m n (x ∷ xs) le (d, rest) = (omega arith, AllNoDeeper-trans m n xs le rest)

AllNoDeeper-insert :
    (n : ℕ) (x : String) (ys : List String)
    → depth x ≤ n
    → AllNoDeeper n ys
    → AllNoDeeper n (insert_deepest x ys)
unfolding AllNoDeeper insert_deepest
AllNoDeeper-insert n x [] le a = (le, tt)
AllNoDeeper-insert n x (y ∷ ys) le (d, rest) = elim (Bool-cases (leb (depth y) (depth x))) [
  | inl e ↦ rw e (le, (d, rest))
  | inr e ↦ rw e (d, AllNoDeeper-insert n x ys le rest)
]

insert_deepest-IsDeepestFirst :
    (x : String) (ys : List String) → IsDeepestFirst ys → IsDeepestFirst (insert_deepest x ys)
unfolding IsDeepestFirst insert_deepest
insert_deepest-IsDeepestFirst x [] d = unfold AllNoDeeper in (tt, tt)
insert_deepest-IsDeepestFirst x (y ∷ ys) (a, d) = elim (Bool-cases (leb (depth y) (depth x))) [
  | inl e ↦
      let le : depth y ≤ depth x = ground arith in
      rw e ((unfold AllNoDeeper in (le, AllNoDeeper-trans (depth y) (depth x) ys le a)), (a, d))
  | inr e ↦
      rw e
        (AllNoDeeper-insert (depth y) x ys (ground arith) a, insert_deepest-IsDeepestFirst x ys d)
]

sort_deepest-IsDeepestFirst : (xs : List String) → IsDeepestFirst (sort_deepest xs)
unfolding sort_deepest
sort_deepest-IsDeepestFirst [] = unfold IsDeepestFirst in tt
sort_deepest-IsDeepestFirst (x ∷ xs) =
    insert_deepest-IsDeepestFirst x (sort_deepest xs) (sort_deepest-IsDeepestFirst xs)

-- Sorting takes no path away and adds none.
IsIn-insert : (z x : String) (ys : List String) → IsIn z (insert_deepest x ys) → (z ≡ x) ⊎ IsIn z ys
unfolding insert_deepest
IsIn-insert z x [] h = h
IsIn-insert z x (y ∷ ys) h = go (leb (depth y) (depth x)) (IsIn-insert z x ys) h
  where
    go :
        (b : Bool)
        → (IsIn z (insert_deepest x ys) → (z ≡ x) ⊎ IsIn z ys)
        → IsIn z (if b then x ∷ y ∷ ys else y ∷ insert_deepest x ys)
        → (z ≡ x) ⊎ IsIn z (y ∷ ys)
    go true later h = h
    go false later (inl e) = inr (inl e)
    go false later (inr h) = elim (later h) [ inl e ↦ inl e | inr inside ↦ inr (inr inside) ]

IsIn-sort : (z : String) (xs : List String) → IsIn z (sort_deepest xs) → IsIn z xs
unfolding sort_deepest
IsIn-sort z [] h = h
IsIn-sort z (x ∷ xs) h = elim (IsIn-insert z x (sort_deepest xs) h) [
  | inl e ↦ inl e
  | inr later ↦ inr (IsIn-sort z xs later)
]

insert-keeps :
    (z x : String) (ys : List String) → (z ≡ x) ⊎ IsIn z ys → IsIn z (insert_deepest x ys)
unfolding insert_deepest
insert-keeps z x [] h = h
insert-keeps z x (y ∷ ys) h = go (leb (depth y) (depth x)) (insert-keeps z x ys) h
  where
    go :
        (b : Bool)
        → ((z ≡ x) ⊎ IsIn z ys → IsIn z (insert_deepest x ys))
        → (z ≡ x) ⊎ IsIn z (y ∷ ys)
        → IsIn z (if b then x ∷ y ∷ ys else y ∷ insert_deepest x ys)
    go true later h = h
    go false later (inl e) = inr (later (inl e))
    go false later (inr (inl e)) = inl e
    go false later (inr (inr h)) = inr (later (inr h))

sort-keeps : (z : String) (xs : List String) → IsIn z xs → IsIn z (sort_deepest xs)
unfolding sort_deepest
sort-keeps z [] h = h
sort-keeps z (x ∷ xs) (inl e) = insert-keeps z x (sort_deepest xs) (inl e)
sort-keeps z (x ∷ xs) (inr h) = insert-keeps z x (sort_deepest xs) (inr (sort-keeps z xs h))

AllNoDeeper-IsIn :
    (n : ℕ) (z : String) (xs : List String) → AllNoDeeper n xs → IsIn z xs → depth z ≤ n
unfolding AllNoDeeper
AllNoDeeper-IsIn n z [] a h = absurd h
AllNoDeeper-IsIn n z (x ∷ xs) (d, a) (inl e) = rw e d
AllNoDeeper-IsIn n z (x ∷ xs) (d, a) (inr h) = AllNoDeeper-IsIn n z xs a h

module _ (T : Tools) where
  open T use {State}

  first_root-eq-ok :
      (s : State) (xs : List String) (root : String)
      → IsDeepestFirst xs
      → first_root T s xs ≡ ok root
      → IsIn root xs
        × (has_prebuilts T s root ≡ true)
        × ((other : String)
            → IsIn other xs
            → has_prebuilts T s other ≡ true
            → depth other ≤ depth root)
  unfolding first_root IsDeepestFirst
  first_root-eq-ok s [] root sorted h = cc
  first_root-eq-ok s (x ∷ xs) root (a, sorted) h = elim (Bool-cases (has_prebuilts T s x)) [
    | inl e ↦
        let same : x ≡ root = ground arith in
        (
          inl (sym same),
          (cc),
          λ other m has.
              subst (λ r. depth other ≤ depth r) same
                (AllNoDeeper-IsIn (depth x) other (x ∷ xs) (unfold AllNoDeeper in (omega arith, a))
                  m),
        )
    | inr e ↦
        let (inside, has, deepest) = first_root-eq-ok s xs root sorted (ground arith) in
        (
          inr inside,
          has,
          λ other m has'. elim m [
            | inl equal ↦ absurd (ground (arith, ap (has_prebuilts T s) equal))
            | inr later ↦ deepest other later has'
          ],
        )
  ]

  -- The root is the directory itself or one found in it, holds what is wanted, and none of those
  -- that do is deeper.
  abbrev pub IsDeepestRoot : String → String → State → Type 0
  IsDeepestRoot extracted root s =
      let found = extracted ∷ candidates (T.walk extracted s) in
      IsIn root found
      × (has_prebuilts T s root ≡ true)
      × ((other : String)
          → IsIn other found
          → has_prebuilts T s other ≡ true
          → depth other ≤ depth root)

  -- Where the root of the prebuilts is found, nothing is changed, it is the extracted directory
  -- itself or one that holds lib64, lib and etc, it has the directories lib64 and etc, and none
  -- of these directories that has both is deeper.
  pub find_prebuilts_root-deepest :
      (extracted root : String) (s t : State)
      → find_prebuilts_root T extracted s ≡ (ok root, t)
      → (s ≡ t) × IsDeepestRoot extracted root s
  unfolding find_prebuilts_root ◌>>=◌
  find_prebuilts_root-deepest extracted root s t h =
      let found = extracted ∷ candidates (T.walk extracted s) in
      let (same, e) = query-eq-ok (λ u. first_root T u (sort_deepest found)) s t root h in
      let e' = ap (λ u. first_root T u (sort_deepest found)) same ∙ e in
      let (inside, has, deepest) =
        first_root-eq-ok s (sort_deepest found) root (sort_deepest-IsDeepestFirst found) e' in
      (
        same,
        (
          IsIn-sort root found inside,
          has,
          λ other m has'. deepest other (sort-keeps other found m) has',
        ),
      )
