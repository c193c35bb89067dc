-- ===== src/Base/Int.antt =====
-- Python's integers, as far as the program reads them from texts and compares them.
use Prim.Native.Nat.{ℕ, zero, suc, ◌+◌, ◌-◌, ◌*◌}
use Prim.Native.Char.{Char, code}
use Prim.Native.String.{String}
use mathlib.Core.Bool.{Bool, true, false, ◌&&◌}
use mathlib.Core.Option
use mathlib.Core.Option.{Option, none, some}
use waydroid.Base.Equality.{◌==◌, nat_eq, leb, ltb, if◌then◌else◌}
use waydroid.Base.Text.{strip}

-- `negsuc n` is -(n + 1).
pub data ℤ : Type 0 where
  pos : ℕ → ℤ
  negsuc : ℕ → ℤ

-- `i == 0`
abbrev pub is_zero : ℤ → Bool
is_zero (pos n) = n == 0
is_zero (negsuc n) = false

-- `i < n`
abbrev pub ltb_ℤ : ℤ → ℕ → Bool
ltb_ℤ (pos i) n = ltb i n
ltb_ℤ (negsuc i) n = true

-- `n < i`
abbrev pub gtb_ℤ : ℤ → ℕ → Bool
gtb_ℤ (pos i) n = ltb n i
gtb_ℤ (negsuc i) n = false

abbrev pub negate : ℕ → ℤ
negate zero = pos zero
negate (suc n) = negsuc n

is_digit : Char → Bool
is_digit c = leb b'0' (code c) && leb (code c) b'9'

-- The digits behind a digit: single underscores may stand between them.
digits_from : ℕ → String → Option ℕ
digits_from n String.[] = some n
digits_from n (String.◌∷◌ c String.[]) =
    if is_digit c then some (n * 10 + (code c - b'0')) else none
digits_from n (String.◌∷◌ c (String.◌∷◌ d s)) = elim (is_digit c) [
  | true ↦ digits_from (n * 10 + (code c - b'0')) (String.◌∷◌ d s)
  | false ↦ elim (code c == b'_' && is_digit d) [
    | true ↦ digits_from (n * 10 + (code d - b'0')) s
    | false ↦ none
  ]
]

magnitude : String → Option ℕ
magnitude String.[] = none
magnitude (String.◌∷◌ c s) = if is_digit c then digits_from (code c - b'0') s else none

signed : String → Option ℤ
signed String.[] = none
signed (String.◌∷◌ c s) =
    if code c == b'-'
    then Option.map negate (magnitude s)
    else if code c == b'+'
    then Option.map pos (magnitude s)
    else Option.map pos (magnitude (String.◌∷◌ c s))

-- `int(s)`, for texts with the digits 0 to 9: `none` where it raises `ValueError`.
unfoldable pub int : String → Option ℤ
unfolding signed magnitude digits_from is_digit
int s = signed (strip s)
