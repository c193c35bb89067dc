-- ===== src/Container/Tracking.antt =====
-- tools/actions/container_manager.py: when a session is tracked, and when it is not.
use waydroid.Base.{
  ◌≡◌, refl, ap, sym, String, ◌∙◌, ◌⊎◌, inl, inr, Bool, true, false, Option, none, some,
}
use waydroid.Base.{Result, ok, raised, Exc, M, NoneType, pure, gets}
use waydroid.Base.{or_else_do, except_any, try_except, ◌>>=◌, ◌>>◌}
use waydroid.Base.{if◌then◌else◌}
use waydroid.Base.Dict.{is_some}
use waydroid.Base.Preserving.{
  Keeps, Keeps-bind, Keeps-then, Keeps-when, Keeps-if, KeepsOnRaise, KeepsOnRaise-bind,
}
use waydroid.Base.Preserving.{KeepsOnRaise-then, Preserves, Preserves-bind, Preserves-then}
use waydroid.Base.Refusal.{bind-eq-ok, guard-eq-ok, then-eq-ok}
use waydroid.Base.Preserving.{Preserves-when}
use waydroid.Container.Daemon.{Daemon, lift, set_hardware, prepare_drivers, prepare_drivers_once}
use waydroid.Container.Daemon.{
  do_start, bring_up, start_session, hwbinder_driver, untrack, stop, tear_down, stop_body,
}
use waydroid.Host.{Host}
use waydroid.Images.Rootfs.{Session}
use waydroid.Initializer.{is_initialized}
use waydroid.Services

module _ (H : Host) where
  abbrev tracked : Daemon H → Option Session
  tracked d = d.session

  lift-Keeps : {A : Type 0} (m : M (Host.State H) A) → Keeps tracked (lift m)
  unfolding lift
  lift-Keeps m d = refl

  prepare_drivers_once-Keeps : Keeps tracked (prepare_drivers_once H)
  unfolding prepare_drivers_once prepare_drivers
  prepare_drivers_once-Keeps =
      Keeps-bind tracked _ _ (λ d. refl)
        λ prepared.
          Keeps-if tracked prepared _ _ (λ d. refl)
            (Keeps-bind tracked _ _ (lift-Keeps _) λ nodes.
              Keeps-then tracked _ _ (λ d. refl)
                (Keeps-then tracked _ _ (lift-Keeps _) (λ d. refl)))

  do_start-KeepsOnRaise : (session : Session) → KeepsOnRaise tracked (do_start H session)
  unfolding do_start start_session
  do_start-KeepsOnRaise session = KeepsOnRaise-bind tracked _ _ (lift-Keeps _) λ initialized.
      KeepsOnRaise-then tracked _ _ (Keeps-when tracked _ _ (λ d. refl)) (
        KeepsOnRaise-bind tracked _ _ (λ d. refl)
          λ found. KeepsOnRaise-then tracked _ _ (Keeps-when tracked _ _ (λ d. refl)) (
            KeepsOnRaise-then tracked _ _ prepare_drivers_once-Keeps (
              KeepsOnRaise-bind tracked _ _ (λ d. refl)
                λ hwbinder.
                  KeepsOnRaise-then tracked _ _ (lift-Keeps _)
                    (KeepsOnRaise-then tracked _ _ (λ d. refl) (λ d e h. absurd cc)))))

  -- A do_start that raises, wherever it does, leaves the tracked session as it was.
  pub do_start-raised :
      (session : Session) (d : Daemon H) (e : Exc)
      → (do_start H session d).0 ≡ raised e
      → (do_start H session d).1.session ≡ d.session
  do_start-raised session d e h = do_start-KeepsOnRaise session d e h

  start_session-tracks :
      (session : Session) (hwbinder : Result String) (d e : Daemon H)
      → start_session H session hwbinder d ≡ (ok tt, e)
      → (e.session ≡ some session) × (e.hardware.stopping ≡ false)
  unfolding start_session Services.start ◌>>◌
  start_session-tracks session hwbinder d e h =
      let (_, u, _, q) = then-eq-ok (lift (bring_up H hwbinder session)) _ d e tt h in
      (ap (λ r. r.1.session) (sym q), ap (λ r. r.1.hardware.stopping) (sym q))

  -- A do_start that returns has found no session tracked; the daemon now tracks the session it
  -- was given, and the hardware service is not stopping.
  pub do_start-tracks :
      (session : Session) (d e : Daemon H)
      → do_start H session d ≡ (ok tt, e)
      → (d.session ≡ none) × (e.session ≡ some session) × (e.hardware.stopping ≡ false)
  unfolding do_start lift ◌>>=◌
  do_start-tracks session d e h =
      let (_, h1) = guard-eq-ok _ _ _ d e tt h in
      let (free, h2) = guard-eq-ok _ _ _ d e tt h1 in
      let (_, d3, _, h3) = then-eq-ok (prepare_drivers_once H) _ d e tt h2 in
      let (hwbinder, d4, _, h4) =
        bind-eq-ok (gets hwbinder_driver) (start_session H session) d3 e tt h3 in
      let (now, running) = start_session-tracks session hwbinder d4 e h4 in
      (not_some d.session free, now, running)
    where
      not_some : (o : Option Session) → is_some o ≡ false → o ≡ none
      not_some none h = refl
      not_some (some x) h = cc

  -- The session is not tracked, or is the one from before, and the hardware service is stopping.
  abbrev pub IsGone : Option Session → Daemon H → Type 0
  IsGone before d = ((d.session ≡ none) ⊎ (d.session ≡ before)) × (d.hardware.stopping ≡ true)

  untrack-Preserves :
      (before : Option Session) (quit_session : Bool) (found : Option Session)
      → Preserves (IsGone before) (untrack H quit_session found)
  unfolding untrack lift
  untrack-Preserves before quit_session none = λ d h. h
  untrack-Preserves before quit_session (some session) =
      Preserves-then (IsGone before) _ _ (Preserves-when (IsGone before) quit_session _ (λ d h. h))
        (λ d (_, stopping). (inl refl, stopping))

  stop_body-IsGone :
      (quit_session : Bool) (d : Daemon H) → IsGone d.session (stop_body H quit_session d).1
  unfolding stop_body lift Services.stop ◌>>◌
  stop_body-IsGone quit_session d =
      let gone = IsGone d.session in
      Preserves-then gone (lift (tear_down H)) _ (λ e h. h)
        (Preserves-bind gone (gets tracked) _ (λ e h. h) (untrack-Preserves d.session quit_session))
        (set_hardware Services.stop d) (inr refl, refl)

  -- In an initialized program stop never raises; afterwards no session is tracked or the one
  -- from before still is, and the hardware service is stopping.
  pub stop-IsGone :
      (quit_session : Bool) (d : Daemon H)
      → is_initialized H d.os ≡ true
      → ((stop H quit_session d).0 ≡ ok tt) × IsGone d.session (stop H quit_session d).1
  unfolding stop lift except_any try_except ◌>>=◌ ◌>>◌
  stop-IsGone quit_session d initialized =
      rw initialized (caught (stop_body H quit_session d) (stop_body-IsGone quit_session d))
    where
      caught :
          (p : Result NoneType × Daemon H)
          → IsGone d.session p.1
          → ((or_else_do p (λ _. some (pure tt))).0 ≡ ok tt)
            × IsGone d.session (or_else_do p (λ _. some (pure tt))).1
      caught (ok tt, e) h = (refl, h)
      caught (raised x, e) h = (refl, h)

  prepare_drivers-prepared :
      (d e : Daemon H) → prepare_drivers H d ≡ (ok tt, e) → e.prepared_drivers ≡ true
  unfolding prepare_drivers
  prepare_drivers-prepared d e h =
      let (_, d1, _, h1) = bind-eq-ok _ _ d e tt h in
      let (_, d2, _, h2) = then-eq-ok _ _ d1 e tt h1 in
      let (_, d3, _, h3) = then-eq-ok _ _ d2 e tt h2 in ap (λ r. r.1.prepared_drivers) (sym h3)

  -- After a preparation of the drivers that has returned, another one returns at once and
  -- changes nothing.
  pub prepare_drivers_once-once :
      (d e : Daemon H)
      → prepare_drivers_once H d ≡ (ok tt, e)
      → prepare_drivers_once H e ≡ (ok tt, e)
  unfolding prepare_drivers_once ◌>>=◌
  prepare_drivers_once-once d e h = rw (prepared d.prepared_drivers refl h) refl
    where
      prepared :
          (b : Bool)
          → d.prepared_drivers ≡ b
          → (if b then pure tt else prepare_drivers H) d ≡ (ok tt, e)
          → e.prepared_drivers ≡ true
      prepared true q h = ap (λ r. r.1.prepared_drivers) (sym h) ∙ q
      prepared false q h = prepare_drivers-prepared d e h

  untrack-forgets :
      (quit_session : Bool) (found : Option Session) (d e : Daemon H)
      → d.session ≡ found
      → untrack H quit_session found d ≡ (ok tt, e)
      → e.session ≡ none
  unfolding untrack
  untrack-forgets quit_session none d e p h = ap (λ r. r.1.session) (sym h) ∙ p
  untrack-forgets quit_session (some session) d e p h =
      let (_, u, _, q) = then-eq-ok _ _ d e tt h in ap (λ r. r.1.session) (sym q)

  -- Where the body of stop raises nothing, no session is tracked afterwards and the hardware
  -- service is stopping.
  pub stop_body-forgets :
      (quit_session : Bool) (d e : Daemon H)
      → stop_body H quit_session d ≡ (ok tt, e)
      → (e.session ≡ none) × (e.hardware.stopping ≡ true)
  unfolding stop_body
  stop_body-forgets quit_session d e h =
      let (_, d1, _, h1) = then-eq-ok _ _ d e tt h in
      let (_, d2, _, h2) = then-eq-ok (lift (tear_down H)) _ d1 e tt h1 in
      let (found, d3, p, h3) = bind-eq-ok (gets tracked) (untrack H quit_session) d2 e tt h2 in
      let same : d3.session ≡ found = cc in
      (
        untrack-forgets quit_session found d3 e same h3,
        ap (λ r. r.1.hardware.stopping) (sym h) ∙ (stop_body-IsGone quit_session d).1,
      )
