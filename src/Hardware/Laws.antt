-- ===== src/Hardware/Laws.antt =====
-- tools/services/hardware_manager.py: what an upgrade does to the session that is tracked.
use waydroid.Base.{◌≡◌, ap, ◌∙◌, sym, String, Option, none, some, Result, ok, raised, M, NoneType}
use waydroid.Base.{string_eq, ◌>>◌, attribute_error}
use waydroid.Base.Dict
use waydroid.Base.Refusal.{bind-eq-ok, then-eq-ok}
use waydroid.Container.Daemon.{Daemon, lift, set_session}
use waydroid.Hardware.{tracked_session, take_down, put_up, upgrade}
use waydroid.Host.{Host}
use waydroid.Images.Rootfs.{Session}

module _ (H : Host) where
  lifted :
      (m : M (Host.State H) NoneType) (d e : Daemon H)
      → lift m d ≡ (ok tt, e)
      → e.session ≡ d.session
  unfolding lift
  lifted m d e h = ap (λ r. r.1.session) (sym h)

  found :
      (d e : Daemon H) (session : Session)
      → tracked_session H d ≡ (ok session, e)
      → d.session ≡ some session
  unfolding tracked_session
  found d e session h = go d.session (ap (λ r. r.0) h)
    where
      go :
          (o : Option Session)
          → (let r : Result Session = elim o [
            | none ↦ raised (attribute_error "session")
            | some s ↦ ok s
          ] in
              r)
            ≡ ok session
          → o ≡ some session
      go none q = cc
      go (some s) q = let same : s ≡ session = cc in ap some same

  -- An upgrade that returns has found a session tracked, and the daemon now tracks that session
  -- with background_start set to false.
  pub upgrade-background_start :
      (system_zip system_time vendor_zip vendor_time : String) (d e : Daemon H)
      → upgrade H system_zip system_time vendor_zip vendor_time d ≡ (ok tt, e)
      → (session : Session) × (d.session ≡ some session)
        × (e.session ≡ some (Dict.insert "background_start" "false" session))
  unfolding upgrade ◌>>◌
  upgrade-background_start a b c t d e h =
      let (_, d1, p1, h1) = then-eq-ok (lift (take_down H a b c t)) _ d e tt h in
      let (session, d2, p2, h2) = bind-eq-ok (tracked_session H) _ d1 e tt h1 in
      (
        session,
        sym (lifted _ d d1 p1) ∙ found d1 d2 session p2,
        lifted (put_up H (Dict.insert "background_start" "false" session))
            (set_session (some (Dict.insert "background_start" "false" session)) d2) e h2,
      )
