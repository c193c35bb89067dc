-- ===== src/Base/Tests.antt =====
-- Texts and numbers at inputs that can be compared with Python's answers.
use waydroid.Base.{◌≡◌, refl, some, none, [], ◌∷◌}
use waydroid.Base.Text.{strip, words, lines, split, join, remove_suffix, str, replace}
use waydroid.Base.Text.{partition, text_functions}
use waydroid.Base.Int.{int, pos, negsuc}

texts :
    (strip " a b\n" ≡ "a b")
    × (words " a  bc\td\n" ≡ "a" ∷ "bc" ∷ "d" ∷ [])
    × (lines "a\n\nb" ≡ "a\n" ∷ "\n" ∷ "b" ∷ [])
    × (split "." "1.6.4" ≡ "1" ∷ "6" ∷ "4" ∷ [])
    × (join ", " ("a" ∷ "b" ∷ []) ≡ "a, b")
    × (remove_suffix "/x (deleted)" " (deleted)" ≡ "/x")
    × (str 1204 ≡ "1204")
    × (str 0 ≡ "0")
    × (replace "/mnt/a/mnt/mnt/b" "/mnt/" "/mnt_extra/" ≡ "/mnt_extra/a/mnt_extra/mnt/b")
    × (partition "=" "a=b=c" ≡ ("a", "b=c"))
unfolding text_functions
texts = (refl, refl, refl, refl, refl, refl, refl, refl, refl, refl)

numbers :
    (int " 29\n" ≡ some (pos 29))
    × (int "-3" ≡ some (negsuc 2))
    × (int "1_000" ≡ some (pos 1000))
    × (int "29.0" ≡ none)
    × (int "" ≡ none)
unfolding int text_functions
numbers = (refl, refl, refl, refl, refl)
