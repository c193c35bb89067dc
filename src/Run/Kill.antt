-- ===== src/Run/Kill.antt =====
-- tools/helpers/run_core.py: killing a command with the processes below it.
pub mod Laws
use waydroid.Base.{ℕ, zero, suc, String, ◌<>◌, nat_eq, not, List, [], ◌∷◌}
use waydroid.Base.{
  M, NoneType, Result, ok, raised, pure, raise, runtime_error, called_process_error, when, for_each,
  query, then_result,
}
use waydroid.Base.{◌>>=◌, ◌>>◌, ◌==◌, string_eq, if◌then◌else◌}
use waydroid.Base.Text.{rstrip, split, words}
use waydroid.Base.Int.{is_zero}
use waydroid.Host.{Host}
use waydroid.Run.{run_unchecked}

-- `if child_ppid == str(pid): kill_process_tree(...)`, `below` being the call for a child
abbrev pub kill_child :
    {S : Type 0} → (String → M S NoneType) → String → String × String → M S NoneType
kill_child below pid (child_pid, child_ppid) = when (child_ppid == pid) (below child_pid)

module _ (H : Host) where
  open H use {State}

  abbrev pub kill : String → M State NoneType
  kill pid = run_unchecked H ("kill" ∷ "-9" ∷ pid ∷ []) >> pure tt

  -- The fuel is what is left of Python's stack: where none is left, a RecursionError is raised.
  unfoldable pub kill_process_tree : ℕ → List (String × String) → String → M State NoneType
  kill_process_tree zero ppids pid = raise (runtime_error "maximum recursion depth exceeded")
  kill_process_tree (suc fuel) ppids pid =
      kill pid >> for_each ppids (kill_child (kill_process_tree fuel ppids) pid)

-- A row of the table that `ps` prints, after its first line.
unfoldable pub ppid_of : String → List String → Result (String × String)
ppid_of row (pid ∷ ppid ∷ []) = ok (pid, ppid)
ppid_of row _ = raised (runtime_error ("Unexpected ps output: " <> row))

unfoldable pub ppids_of : List String → Result (List (String × String))
ppids_of [] = ok []
ppids_of (row ∷ rows) =
    let later = ppids_of rows in
    then_result (ppid_of row (words row)) (λ item. then_result later (λ items. ok (item ∷ items)))

abbrev pub rows_of : List String → List String
rows_of [] = []
rows_of (first ∷ rows) = rows

module _ (H : Host) where
  open H use {State}

  unfoldable pub kill_command : ℕ → String → M State NoneType
  kill_command fuel pid = do
    (n, output) ← H.process ("ps" ∷ "-e" ∷ "-o" ∷ "pid,ppid" ∷ [])
    when (not (is_zero n)) (raise (called_process_error "ps -e -o pid,ppid"))
    ppids ← query (λ _. ppids_of (rows_of (split "\n" (rstrip output))))
    kill_process_tree H fuel ppids pid
