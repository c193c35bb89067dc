-- ===== src/Services.antt =====
-- tools/services/runner.py: the background thread of a service. Its worker calls a function of the
-- service again and again until it is told to stop; the thread runs beside the calls modelled here.
use waydroid.Base.{Bool, true, false, not, ◌||◌}

pub record ServiceRunner : Type 0 where
  pub stopping : Bool
  -- a worker thread has been started
  pub has_thread : Bool
  -- the main loop that the service installs on `args`, and whether it has been quit
  pub has_loop : Bool
  pub has_quit : Bool

abbrev pub new_runner : ServiceRunner
new_runner = record { stopping = false; has_thread = false; has_loop = false; has_quit = false }

unfoldable pub start : ServiceRunner → ServiceRunner
start r = record r { stopping = false; has_thread = true }

-- A worker goes on while this is true.
unfoldable pub runs_again : ServiceRunner → Bool
runs_again r = not r.stopping

unfoldable pub stop : ServiceRunner → ServiceRunner
stop r = record r { stopping = true; has_quit = r.has_quit || r.has_loop }
