-- ===== src/Version.antt =====
-- tools/helpers/version.py
pub mod Order
use waydroid.Base.{ℕ, ◌+◌, ◌-◌, ◌*◌, String, Bool, true, false, ◌&&◌, List, [], ◌∷◌}
use waydroid.Base.{
  Option, none, some, Result, ok, raised, value_error, attribute_error, then_result,
}
use waydroid.Base.{◌==◌, nat_eq, leb, if◌then◌else◌}
use waydroid.Base.Text.{split}
use waydroid.Base.Int.{ℤ, pos, negsuc, int}
use Prim.Native.Char.{Char, code}

-- Python's `<=` on integers and on tuples of them.
unfoldable pub le_ℤ : ℤ → ℤ → Bool
le_ℤ (pos a) (pos b) = leb a b
le_ℤ (pos a) (negsuc b) = false
le_ℤ (negsuc a) (pos b) = true
le_ℤ (negsuc a) (negsuc b) = leb b a

unfoldable pub le_tuple : List ℤ → List ℤ → Bool
le_tuple [] ys = true
le_tuple (x ∷ xs) [] = false
le_tuple (x ∷ xs) (y ∷ ys) = if le_ℤ x y then (if le_ℤ y x then le_tuple xs ys else true) else false

ints : List String → Result (List ℤ)
ints [] = ok []
ints (part ∷ parts) = elim (int part) [
  | none ↦ raised (value_error part)
  | some i ↦ then_result (ints parts) (λ rest. ok (i ∷ rest))
]

unfoldable pub versiontuple : String → Result (List ℤ)
unfolding ints
versiontuple v = ints (split "." v)

is_digit : Char → Bool
is_digit c = leb b'0' (code c) && leb (code c) b'9'

abbrev or_zero : Option ℕ → ℕ
or_zero none = 0
or_zero (some m) = m

-- The number at the start of a text, if there is one, and what follows it.
digits : Option ℕ → String → Option ℕ × String
unfolding is_digit
digits n String.[] = (n, "")
digits n (String.◌∷◌ c s) = elim (is_digit c) [
  | true ↦ digits (some (or_zero n * 10 + (code c - b'0'))) s
  | false ↦ (n, String.◌∷◌ c s)
]

minor : ℕ → String → Result (List ℤ)
unfolding digits
minor major String.[] = raised (attribute_error "groups")
minor major (String.◌∷◌ c s) =
    if code c == b'.'
    then elim ((digits none s).0) [
      | none ↦ raised (attribute_error "groups")
      | some n ↦ ok (pos major ∷ pos n ∷ [])
    ]
    else raised (attribute_error "groups")

-- `re.match(r"(\d+)\.(\d+)", release).groups()` as integers
unfoldable pub kernel_version : String → Result (List ℤ)
unfolding digits minor
kernel_version release = elim ((digits none release).0) [
  | none ↦ raised (attribute_error "groups")
  | some major ↦ minor major (digits none release).1
]
