-- ===== src/Run.antt =====
-- tools/helpers/run.py and tools/helpers/run_core.py: running a command.
-- `core` is modelled with `sudo` off, as every caller in the program leaves it.
pub mod Laws
pub mod Kill
use waydroid.Base.{ℕ, String, ◌<>◌, Bool, true, false, not, ◌&&◌, Option, none, some, List, [], ◌∷◌}
use waydroid.Base.{M, NoneType, pure, raise, runtime_error, when, ◌>>=◌, ◌>>◌}
use waydroid.Base.{◌==◌, contains, string_eq, nat_eq, if◌then◌else◌}
use waydroid.Base.Text.{join}
use waydroid.Base.Dict.{is_some}
use waydroid.Base.Int.{ℤ, pos, is_zero}
use waydroid.Host.{Host}

-- `output`, `output_return` and `check`, which is None unless it is given.
pub record Options : Type 0 where
  pub output : String
  pub output_return : Bool
  pub check : Option Bool

-- What `core` returns: an exit code, the process, or its output.
pub data Returned : Type 0 where
  code : ℤ → Returned
  process : Returned
  text : String → Returned

abbrev output_values : List String
output_values = "log" ∷ "stdout" ∷ "interactive" ∷ "tui" ∷ "background" ∷ "pipe" ∷ []

unfoldable pub sanity_checks : {S : Type 0} → Options → M S NoneType
sanity_checks o = do
  when (not (contains output_values o.output))
      (raise (runtime_error ("Invalid output value: " <> o.output)))
  when (is_some o.check && o.output == "background")
      (raise (runtime_error "Can't use check with output: background"))
  when (o.output_return && contains ("tui" ∷ "background" ∷ []) o.output)
      (raise (runtime_error ("Can't use output_return with output: " <> o.output)))

unfoldable pub check_return_code : {S : Type 0} → ℤ → String → M S NoneType
check_return_code n log_message =
    when (not (is_zero n)) (raise (runtime_error ("Command failed: " <> log_message)))

-- `check is not False`
abbrev pub is_checked : Option Bool → Bool
is_checked (some false) = false
is_checked (some true) = true
is_checked none = true

module _ (H : Host) where
  open H use {State}

  foreground : String → List String → Options → M State Returned
  foreground log_message cmd o = do
    (n, output_after_run) ← H.process cmd
    when (is_checked o.check) (check_return_code n log_message)
    pure (if o.output_return then text output_after_run else code n)

  unfoldable pub core : String → List String → Options → M State Returned
  unfolding foreground
  core log_message cmd o = do
    sanity_checks o
    if o.output == "background"
        then H.spawn cmd >> pure process
        else if o.output == "pipe"
        then H.spawn cmd >> pure process
        else foreground log_message cmd o

  -- `run.user`, without an environment or a working directory
  unfoldable pub user : List String → Options → M State Returned
  user cmd o = core ("% " <> join " " cmd) cmd o

  -- The calls that the program makes: with the return code checked, with `check=False`, with
  -- `output_return=True`, with both, and in the background.
  unfoldable pub run : List String → M State NoneType
  run cmd = user cmd (record { output = "log"; output_return = false; check = none }) >> pure tt

  exit_code : Returned → ℤ
  exit_code (code n) = n
  exit_code process = pos 0
  exit_code (text _) = pos 0

  output_text : Returned → String
  output_text (text s) = s
  output_text (code _) = ""
  output_text process = ""

  unfoldable pub run_unchecked : List String → M State ℤ
  unfolding exit_code
  run_unchecked cmd = do
    r ← user cmd (record { output = "log"; output_return = false; check = some false })
    pure (exit_code r)

  unfoldable pub run_output : List String → M State String
  unfolding output_text
  run_output cmd = do
    r ← user cmd (record { output = "log"; output_return = true; check = none })
    pure (output_text r)

  unfoldable pub run_output_unchecked : List String → M State String
  unfolding output_text
  run_output_unchecked cmd = do
    r ← user cmd (record { output = "log"; output_return = true; check = some false })
    pure (output_text r)

  unfoldable pub run_background : List String → M State NoneType
  run_background cmd =
      user cmd (record { output = "background"; output_return = false; check = none }) >> pure tt
