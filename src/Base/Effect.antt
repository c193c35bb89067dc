-- ===== src/Base/Effect.antt =====
-- A call of a Python function: it returns or raises, and what it has changed by then stays.
use Prim.Native.String.{String}
use mathlib.Core.Path.{◌≡◌}
use mathlib.Core.Bool.{Bool, true, false, cond}
use mathlib.Core.Option.{Option, none, some}
use mathlib.Core.List.{List, [], ◌∷◌}

-- The exceptions that the program raises or meets, each with its text. `os_error` stands for
-- `OSError` and its subclasses.
pub data Exc : Type 0 where
  runtime_error os_error file_exists_error value_error key_error type_error : String → Exc
  index_error attribute_error permission_error dbus_error called_process_error : String → Exc

pub data Result (A : Type 0) : Type 0 where
  ok : A → Result A
  raised : Exc → Result A

abbrev pub M : Type 0 → Type 0 → Type 0
M S A = S → Result A × S

-- What a procedure without a result returns.
abbrev pub NoneType : Type 0
NoneType = Unit {0}

module _ {S A : Type 0} where
  abbrev pub pure : A → M S A
  pure a s = (ok a, s)

  abbrev pub raise : Exc → M S A
  raise e s = (raised e, s)

  abbrev pub gets : (S → A) → M S A
  gets f s = (ok (f s), s)

  abbrev pub of_result : Result A → M S A
  of_result r s = (r, s)

-- A call that only reads the state.
abbrev pub query : {S A : Type 0} → (S → Result A) → M S A
query q s = (q s, s)

abbrev pub then_result : {A B : Type 0} → Result A → (A → Result B) → Result B
then_result (ok a) f = f a
then_result (raised e) f = raised e

module _ {S : Type 0} where
  abbrev pub modify : (S → S) → M S NoneType
  modify f s = (ok tt, f s)

abbrev pub then_do : {S A B : Type 0} → Result A × S → (A → M S B) → Result B × S
then_do (ok a, t) f = f a t
then_do (raised e, t) f = (raised e, t)

infixl 5 ◌>>=◌ ◌>>◌
unfoldable pub ◌>>=◌ : {S A B : Type 0} → M S A → (A → M S B) → M S B
◌>>=◌ m f s = then_do (m s) f

unfoldable pub ◌>>◌ : {S A B : Type 0} → M S A → M S B → M S B
◌>>◌ m k s = then_do (m s) (λ _. k)

abbrev pub or_else_do : {S A : Type 0} → Result A × S → (Exc → Option (M S A)) → Result A × S
or_else_do (ok a, t) handler = (ok a, t)
or_else_do (raised e, t) handler = elim (handler e) [ none ↦ (raised e, t) | some k ↦ k t ]

-- A handler for some exceptions: `none` lets the exception pass.
unfoldable pub try_except : {S A : Type 0} → M S A → (Exc → Option (M S A)) → M S A
try_except m handler s = or_else_do (m s) handler

-- `except Exception`
unfoldable pub except_any : {S A : Type 0} → M S A → (Exc → M S A) → M S A
unfolding try_except
except_any m handler = try_except m (λ e. some (handler e))

-- `with suppress(Exception)`
abbrev pub suppress_any : {S : Type 0} → M S NoneType → M S NoneType
suppress_any m = except_any m (λ _. pure tt)

abbrev pub is_os_error : Exc → Bool
is_os_error (os_error _) = true
is_os_error (file_exists_error _) = true
is_os_error (permission_error _) = true
is_os_error _ = false

abbrev pub is_runtime_error : Exc → Bool
is_runtime_error (runtime_error _) = true
is_runtime_error _ = false

abbrev pub is_file_exists_error : Exc → Bool
is_file_exists_error (file_exists_error _) = true
is_file_exists_error _ = false

-- `with suppress(OSError)`
abbrev pub suppress_os_error : {S : Type 0} → M S NoneType → M S NoneType
suppress_os_error m = try_except m (λ e. cond (is_os_error e) (some (pure tt)) none)

-- `with suppress(FileExistsError)`
abbrev pub suppress_file_exists : {S : Type 0} → M S NoneType → M S NoneType
suppress_file_exists m = try_except m (λ e. cond (is_file_exists_error e) (some (pure tt)) none)

abbrev pub first_error : {S A : Type 0} → Result A → Result NoneType × S → Result A × S
first_error r (ok _, t) = (r, t)
first_error r (raised e, t) = (raised e, t)

-- `try: m finally: k`
unfoldable pub try_finally : {S A : Type 0} → M S A → M S NoneType → M S A
try_finally m k s = let (r, t) = m s in first_error r (k t)

abbrev pub when : {S : Type 0} → Bool → M S NoneType → M S NoneType
when b m = cond b m (pure tt)

-- `for x in xs: body(x)`
unfoldable pub for_each : {S A : Type 0} → List A → (A → M S NoneType) → M S NoneType
unfolding ◌>>◌
for_each [] body = pure tt
for_each (x ∷ xs) body = body x >> for_each xs body

-- An attempt that has left the state as it was, and has raised.
abbrev pub Refuses : {S A : Type 0} → M S A → S → Type 0
Refuses m s = (e : Exc) × (m s ≡ (raised e, s))

-- Every result of a run has the property.
abbrev pub Ensures : {A : Type 0} → (A → Type 0) → Result A → Type 0
Ensures P (ok a) = P a
Ensures P (raised e) = Unit
