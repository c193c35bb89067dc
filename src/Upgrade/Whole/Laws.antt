-- ===== src/Upgrade/Whole/Laws.antt =====
-- tools/actions/upgrader.py: an upgrade that raises.
use waydroid.Base.{
  ◌≡◌, ◌≢◌, refl, Bool, true, false, String, Exc, Result, ok, raised, M, NoneType, pure, then_do,
  or_else_do, except_any, try_except, ◌>>=◌, string_eq, ◌==◌, if◌then◌else◌, some,
}
use waydroid.Base.Refusal.{bind_raised}
use waydroid.Container.Daemon.{Daemon}
use waydroid.Host.{Host}
use waydroid.Images.Rootfs.{Session}
use waydroid.Initializer.Init.{Remote}
use waydroid.Upgrade.Whole.{
  upgrade, upgrade_halted, restart, start_again, halt_any, halt_running, ask_stop,
}

-- A chain that has raised, where its second part never does: the first part has.
raised_before :
    {S A B : Type 0} (m : M S A) (f : A → M S B) (s t : S) (e : Exc)
    → ((a : A) (u : S) → f a u ≢ (raised e, t))
    → (m >>= f) s ≡ (raised e, t)
    → m s ≡ (raised e, t)
unfolding ◌>>=◌
raised_before m f s t e never h = go (m s) refl h
  where
    go : (p : Result _ × _) → m s ≡ p → then_do p f ≡ (raised e, t) → m s ≡ (raised e, t)
    go (ok a, u) q h = absurd (never a u h)
    go (raised x, u) q h = cc

ok_apart : {S : Type 0} (s t : S) (e : Exc) → ◌≢◌ {A = Result NoneType × S} (ok tt, s) (raised e, t)
ok_apart s t e = λ h. cc

module _ (H : Host) (remote : Remote H) where
  restart_returns :
      (seen : String) (reached : Bool) (d t : Daemon H) (e : Exc)
      → restart H remote seen reached d ≢ (raised e, t)
  unfolding restart except_any try_except
  restart_returns seen reached d t e = λ h. go (seen == "STOPPED") h
    where
      caught :
          (p : Result NoneType × Daemon H)
          → ◌≢◌ {A = Result NoneType × Daemon H} (or_else_do p (λ _. some (pure tt))) (raised e, t)
      caught (ok a, u) = ok_apart u t e
      caught (raised x, u) = ok_apart u t e

      go :
          (b : Bool)
          → (if b then pure tt else except_any (start_again H remote reached) (λ _. pure tt)) d
            ≡ (raised e, t)
          → ⊥
      go true h = ok_apart d t e h
      go false h = caught (start_again H remote reached d) h

  -- An upgrade that raises has not started the container again: it raises the same, in the same
  -- state, whatever the container service would do to start it.
  pub upgrade-raised :
      (start : Session → M (Host.State H) NoneType) (offline : Bool) (d t : Daemon H) (e : Exc)
      → upgrade H offline remote d ≡ (raised e, t)
      → upgrade H offline (record remote { start = start }) d ≡ (raised e, t)
  unfolding upgrade upgrade_halted halt_any halt_running ask_stop
  upgrade-raised start offline d t e h = bind_raised (upgrade_halted H offline remote) _ d t e (
      raised_before (upgrade_halted H offline remote) _ d t e (λ a u. restart_returns a.0 a.1 u t e)
        h)
