-- ===== src/Mount/Order.antt =====
-- The order in which `umount_all_list` gives the mount points.
use Prim.Native.Char.{Char}
use mathlib.Core.List.{Perm}
use mathlib.Core.List.Perm
use text.Mathlib.TextLemmas.{nil-append, cons-append}
use waydroid.Base.{◌≡◌, refl, inl, inr, String, ◌<>◌, true, false, List, [], ◌∷◌, arith}
use waydroid.Base.{Bool-cases, nat_eq}
use waydroid.Mount.{text_le, insert_desc, sort_reverse}

text_le_total : (s t : String) → text_le t s ≡ false → text_le s t ≡ true
unfolding text_le
text_le_total String.[] t h = refl
text_le_total (String.◌∷◌ c s) String.[] h = cc
text_le_total (String.◌∷◌ c s) (String.◌∷◌ d t) h = ground (arith, text_le_total s t)

text_le_trans : (s t u : String) → text_le s t ≡ true → text_le t u ≡ true → text_le s u ≡ true
unfolding text_le
text_le_trans String.[] t u p q = refl
text_le_trans (String.◌∷◌ c s) String.[] u p q = cc
text_le_trans (String.◌∷◌ c s) (String.◌∷◌ d t) String.[] p q = cc
text_le_trans (String.◌∷◌ c s) (String.◌∷◌ d t) (String.◌∷◌ e u) p q =
    ground (arith, text_le_trans s t u)

text_le_nil : (z : String) → text_le z "" ≡ true → z ≡ ""
unfolding text_le
text_le_nil String.[] h = refl
text_le_nil (String.◌∷◌ c z) h = cc

text_le-extension : (x z : String) → text_le (x <> z) x ≡ true → z ≡ ""
text_le-extension String.[] z h = text_le_nil z (rw nil-append at h)
text_le-extension (String.◌∷◌ c x) z h =
    text_le-extension x z (tail_le (x <> z) x c (rw cons-append at h))
  where
    tail_le :
        (s t : String) (c : Char)
        → text_le (String.◌∷◌ c s) (String.◌∷◌ c t) ≡ true
        → text_le s t ≡ true
    tail_le s t c h = unfold text_le in ground arith

abbrev AllBelow : String → List String → Type 0
AllBelow x [] = Unit
AllBelow x (y ∷ ys) = (text_le y x ≡ true) × AllBelow x ys

abbrev IsDescending : List String → Type 0
IsDescending [] = Unit
IsDescending (x ∷ xs) = AllBelow x xs × IsDescending xs

AllBelow-trans :
    (x y : String) (ys : List String) → text_le y x ≡ true → AllBelow y ys → AllBelow x ys
AllBelow-trans x y [] h a = tt
AllBelow-trans x y (z ∷ zs) h (a, rest) = (text_le_trans z y x a h, AllBelow-trans x y zs h rest)

AllBelow-insert_desc :
    (b x : String) (ys : List String)
    → text_le x b ≡ true
    → AllBelow b ys
    → AllBelow b (insert_desc x ys)
unfolding insert_desc
AllBelow-insert_desc b x [] h a = (h, tt)
AllBelow-insert_desc b x (y ∷ ys) h (a, rest) = elim (Bool-cases (text_le y x)) [
  | inl e ↦ rw e (h, (a, rest))
  | inr e ↦ rw e (a, AllBelow-insert_desc b x ys h rest)
]

insert_desc-IsDescending :
    (x : String) (ys : List String) → IsDescending ys → IsDescending (insert_desc x ys)
unfolding insert_desc
insert_desc-IsDescending x [] d = (tt, tt)
insert_desc-IsDescending x (y ∷ ys) (a, d) = elim (Bool-cases (text_le y x)) [
  | inl e ↦ rw e ((e, AllBelow-trans x y ys e a), (a, d))
  | inr e ↦
      rw e (AllBelow-insert_desc y x ys (text_le_total x y e) a, insert_desc-IsDescending x ys d)
]

sort_reverse-IsDescending : (xs : List String) → IsDescending (sort_reverse xs)
unfolding sort_reverse
sort_reverse-IsDescending [] = tt
sort_reverse-IsDescending (x ∷ xs) =
    insert_desc-IsDescending x (sort_reverse xs) (sort_reverse-IsDescending xs)

insert_desc-perm : (x : String) (ys : List String) → Perm (insert_desc x ys) (x ∷ ys)
unfolding insert_desc
insert_desc-perm x [] = Perm.refl _
insert_desc-perm x (y ∷ ys) = elim (Bool-cases (text_le y x)) [
  | inl e ↦ rw e (Perm.refl _)
  | inr e ↦ rw e (Perm.trans (Perm.cons y (insert_desc-perm x ys)) (Perm.swap x y ys))
]

pub sort_reverse-perm : (xs : List String) → Perm (sort_reverse xs) xs
unfolding sort_reverse
sort_reverse-perm [] = Perm.refl _
sort_reverse-perm (x ∷ xs) =
    Perm.trans (insert_desc-perm x (sort_reverse xs)) (Perm.cons x (sort_reverse-perm xs))

-- No path of the list extends `x`.
abbrev pub NoneInside : String → List String → Type 0
NoneInside x [] = Unit
NoneInside x (y ∷ ys) = ((z : String) → y ≡ x <> z → z ≡ "") × NoneInside x ys

-- Each path stands before every path that it extends, so what is mounted inside a mount point
-- comes before it.
abbrev pub IsInnerFirst : List String → Type 0
IsInnerFirst [] = Unit
IsInnerFirst (x ∷ xs) = NoneInside x xs × IsInnerFirst xs

AllBelow→NoneInside : (x : String) (xs : List String) → AllBelow x xs → NoneInside x xs
AllBelow→NoneInside x [] a = tt
AllBelow→NoneInside x (y ∷ ys) (h, a) =
    (λ z e. text_le-extension x z (rw e at h), AllBelow→NoneInside x ys a)

IsDescending→IsInnerFirst : (xs : List String) → IsDescending xs → IsInnerFirst xs
IsDescending→IsInnerFirst [] d = tt
IsDescending→IsInnerFirst (x ∷ xs) (a, d) =
    (AllBelow→NoneInside x xs a, IsDescending→IsInnerFirst xs d)

pub sort_reverse-IsInnerFirst : (xs : List String) → IsInnerFirst (sort_reverse xs)
sort_reverse-IsInnerFirst xs =
    IsDescending→IsInnerFirst (sort_reverse xs) (sort_reverse-IsDescending xs)
