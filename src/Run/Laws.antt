-- ===== src/Run/Laws.antt =====
-- What a return from `run.user` says of the process that ran.
use waydroid.Base.{
  ◌≡◌, refl, String, List, arith, Result, ok, raised, ◌>>=◌, ◌>>◌, string_eq, nat_eq,
}
use waydroid.Base.Int.{ℤ, pos}
use waydroid.Host.{Host}
use waydroid.Run.{sanity_checks, check_return_code, core, user, run}

module _ (H : Host) where
  open H use {State}

  -- A checked command that has returned has run its process, which exited with 0 and left the
  -- state that there is now.
  pub run-eq-ok :
      (cmd : List String) (s t : State)
      → run H cmd s ≡ (ok tt, t)
      → (out : String) × (H.process cmd s ≡ (ok (pos 0, out), t))
  unfolding run user core sanity_checks check_return_code string_eq nat_eq ◌>>=◌ ◌>>◌
  run-eq-ok cmd s t h = go (H.process cmd s) refl
    where
      go :
          (p : Result (ℤ × String) × State)
          → H.process cmd s ≡ p
          → (out : String) × (p ≡ (ok (pos 0, out), t))
      go (ok (n, out), u) e = (out, ground arith)
      go (raised x, u) e = ("", ground arith)
