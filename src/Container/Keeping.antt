-- ===== src/Container/Keeping.antt =====
-- tools/actions/container_manager.py: what calls leave true of the tracked session.
use waydroid.Base.{Bool, Option, none, some, M, ◌>>◌, ◌==◌, string_eq}
use waydroid.Base.Preserving.{
  Preserves, Preserves-bind, Preserves-then, Preserves-when, Preserves-if, Preserves-except_any,
}
use waydroid.Base.Text.{str}
use waydroid.Container.Bus.{Caller, require_initialized, validate_session_owner}
use waydroid.Container.Daemon
use waydroid.Container.Daemon.{Daemon, lift, stop_body, untrack, tear_down}
use waydroid.Base.{refl}
use waydroid.Base.Preserving.{KeepsOnRaise, KeepsOnRaise-bind, KeepsOnRaise-then, Keeps-when}
use waydroid.Container.Bus.{start}
use waydroid.Container.Tracking.{do_start-raised}
use waydroid.Host.{Host}
use waydroid.Images.Rootfs.{Session}

module _ (H : Host) where
  pub start-KeepsOnRaise :
      (session : Session) (caller : Caller)
      → KeepsOnRaise (λ (d : Daemon H). d.session) (start H session caller)
  unfolding start
  start-KeepsOnRaise session caller =
      let kept : Daemon H → Option Session = λ d. d.session in
      KeepsOnRaise-bind kept _ _ (λ d. refl)
        λ user_id. KeepsOnRaise-then kept _ _ (Keeps-when kept _ _ (λ d. refl)) (
          KeepsOnRaise-bind kept _ _ (λ d. refl)
            λ own_pid.
              KeepsOnRaise-then kept _ _ (Keeps-when kept _ _ (λ d. refl))
                (do_start-raised H session))

module _ (H : Host) (P : Option Session → Type 0) where
  abbrev Tracks : Daemon H → Type 0
  Tracks d = P d.session

  pub lift-Preserves : {A : Type 0} (m : M (Host.State H) A) → Preserves Tracks (lift m)
  unfolding lift
  lift-Preserves m d h = h

  pub require_initialized-Preserves : Preserves Tracks (require_initialized H)
  unfolding require_initialized
  require_initialized-Preserves =
      Preserves-bind Tracks _ _ (lift-Preserves _)
        λ initialized. Preserves-when Tracks _ _ (λ d h. h)

  pub validate_session_owner-Preserves :
      (caller : Caller) → Preserves Tracks (validate_session_owner H caller)
  unfolding validate_session_owner
  validate_session_owner-Preserves caller =
      Preserves-if Tracks (str caller.uid == "0") _ _ (λ d h. h)
        (Preserves-bind Tracks _ _ (λ d h. h) λ owner. Preserves-when Tracks _ _ (λ d h. h))

  -- A freeze, a thaw: what they do is to the host.
  pub guarded-Preserves :
      {A : Type 0} (caller : Caller) (m : M (Host.State H) A)
      → Preserves Tracks (require_initialized H >> (validate_session_owner H caller >> lift m))
  guarded-Preserves caller m =
      Preserves-then Tracks _ _ require_initialized-Preserves
        (Preserves-then Tracks _ _ (validate_session_owner-Preserves caller) (lift-Preserves m))

  -- A property that holds without a session.
  module _ (empty : P none) where
    untrack-Preserves :
        (quit_session : Bool) (found : Option Session)
        → Preserves Tracks (untrack H quit_session found)
    unfolding untrack
    untrack-Preserves quit_session none = λ d h. h
    untrack-Preserves quit_session (some session) =
        Preserves-then Tracks _ _ (Preserves-when Tracks quit_session _ (lift-Preserves _))
          (λ d h. empty)

    pub stop-Preserves : (quit_session : Bool) → Preserves Tracks (Daemon.stop H quit_session)
    unfolding Daemon.stop stop_body
    stop-Preserves quit_session = Preserves-bind Tracks _ _ (lift-Preserves _) λ initialized.
        Preserves-then Tracks _ _ (Preserves-when Tracks _ _ (λ d h. h)) (
          Preserves-except_any Tracks _ tt (
            Preserves-then Tracks _ _ (λ d h. h)
              (Preserves-then Tracks (lift (tear_down H)) _ (lift-Preserves _)
                (Preserves-bind Tracks _ _ (λ d h. h) (untrack-Preserves quit_session)))))
