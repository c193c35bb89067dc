-- ===== src/Config/Interpolation.antt =====
-- `configparser` under tools/config/load.py: which values `cfg[section][key] = value` accepts.
use Prim.Native.Char.{Char, code}
use waydroid.Base.{
  String, Bool, true, false, List, [], ◌∷◌, ◌&&◌, not, M, NoneType, pure, raise, value_error, when,
}
use waydroid.Base.{◌>>◌, ◌==◌, nat_eq, if◌then◌else◌}
use waydroid.Base.Text.{replace}

-- Where a scan for `%(name)s` stands: outside, behind the percent sign, behind the parenthesis,
-- in the name, and behind it.
pub data Place : Type 0 where
  outside percent opened named closed : Place

-- Whether a character may stand there, and what follows it.
next_place : Place → Char → Bool × Place
next_place outside c = if code c == b'%' then (true, percent) else (true, outside)
next_place percent c = (code c == b'(', opened)
next_place opened c = (not (code c == b')'), named)
next_place named c = if code c == b')' then (true, closed) else (true, named)
next_place closed c = (code c == b's', outside)

is_outside : Place → Bool
is_outside outside = true
is_outside _ = false

scan : Place → String → Bool
scan place String.[] = is_outside place
scan place (String.◌∷◌ c s) = (next_place place c).0 && scan (next_place place c).1 s

-- No percent sign is left when `%%` and the references have been taken away.
unfoldable pub is_interpolable : String → Bool
unfolding scan next_place is_outside
is_interpolable value = scan outside (replace value "%%" "")

-- The values of assignments, in their order.
unfoldable pub check_values : {S : Type 0} → List String → M S NoneType
check_values [] = pure tt
check_values (value ∷ values) = do
  when (not (is_interpolable value)) (raise (value_error value))
  check_values values
