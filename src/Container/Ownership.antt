-- ===== src/Container/Ownership.antt =====
-- tools/actions/container_manager.py: whose session the daemon can come to track.
use waydroid.Base.{
  ◌≡◌, refl, ap, ◌∙◌, sym, inl, inr, String, Bool, true, false, Option, none, some, List, [], ◌∷◌,
}
use waydroid.Base.{Result, ok, raised, NoneType, gets, ◌>>=◌, ◌==◌, string_eq}
use waydroid.Base.Dict
use waydroid.Base.Dict.{item-eq-ok, lookup-insert_ne}
use waydroid.Base.Preserving.{Preserves, Preserves-bind, Preserves-then}
use waydroid.Base.Text.{str}
use waydroid.Container.Admission.{start-IsAdmitted}
use waydroid.Container.Bus.{
  Caller, Call, start_call, stop_call, freeze_call, unfreeze_call, get_session_call,
}
use waydroid.Container.Bus.{start, stop, freeze, unfreeze, get_session, report, handle, serve}
use waydroid.Container.Daemon.{Daemon, lift}
use waydroid.Container.Keeping.{
  lift-Preserves, require_initialized-Preserves, validate_session_owner-Preserves,
  guarded-Preserves, stop-Preserves, start-KeepsOnRaise,
}
use waydroid.Lxc.Control.{status}
use waydroid.Host.{Host}
use waydroid.Images.Rootfs.{Session}

-- The session, if there is one, names a user of the kind.
abbrev pub IsOwnedBy : (String → Type 0) → Option Session → Type 0
IsOwnedBy Q none = Unit
IsOwnedBy Q (some session) = (u : String) × (Dict.lookup "user_id" session ≡ some u) × Q u

not_both : (b : Bool) → b ≡ true → b ≡ false → ⊥
not_both true p q = absurd (cc q)
not_both false p q = absurd (cc p)

keys_differ : ◌==◌ {A = String} "user_id" "state" ≡ false
unfolding string_eq
keys_differ = refl

module _ (H : Host) (Q : String → Type 0) where
  abbrev IsOwned : Daemon H → Type 0
  IsOwned d = IsOwnedBy Q d.session

  start-Preserves :
      (session : Session) (caller : Caller)
      → (str caller.uid == "0") ≡ false
      → Q (str caller.uid)
      → Preserves IsOwned (start H session caller)
  start-Preserves session caller user allowed d h = go (start H session caller d) refl
    where
      go : (p : Result NoneType × Daemon H) → start H session caller d ≡ p → IsOwned p.1
      go (ok _, e) q =
          let (admission, tracked) = start-IsAdmitted H session caller d e q in
          rw tracked (elim admission [
            | inl root ↦ absurd (not_both _ root user)
            | inr (named, _) ↦ (str caller.uid, item-eq-ok "user_id" _ session named, allowed)
          ])
      go (raised x, e) q =
          let same : e.session ≡ d.session =
            ap (λ r. r.1.session) (sym q)
            ∙ start-KeepsOnRaise H session caller d x (ap (λ r. r.0) q) in
          rw same h

  -- The user of a session does not change where its state is written into it.
  report-IsOwned :
      (found : Option Session) (d : Daemon H)
      → IsOwnedBy Q found
      → IsOwned d
      → IsOwned (report H found d).1
  unfolding report
  report-IsOwned none d k h = h
  report-IsOwned (some session) d (u, named, q) h =
      Preserves-bind IsOwned (lift (status H)) _ (lift-Preserves H (IsOwnedBy Q) _)
        (λ seen.
          Preserves-then IsOwned _ _
            (λ e _. (u, lookup-insert_ne "user_id" "state" seen session keys_differ ∙ named, q))
            (λ e k. k))
        d h

  reported : Preserves IsOwned (gets (λ (d : Daemon H). d.session) >>= report H)
  unfolding ◌>>=◌
  reported d h = report-IsOwned d.session d h h

  get_session-Preserves : (caller : Caller) → Preserves IsOwned (get_session H caller)
  unfolding get_session
  get_session-Preserves caller =
      Preserves-then IsOwned _ _ (require_initialized-Preserves H (IsOwnedBy Q)) (
        Preserves-then IsOwned _ _ (validate_session_owner-Preserves H (IsOwnedBy Q) caller)
          reported)

  handle-Preserves :
      (call : Call) (caller : Caller)
      → (str caller.uid == "0") ≡ false
      → Q (str caller.uid)
      → Preserves IsOwned (handle H call caller)
  unfolding handle stop freeze unfreeze
  handle-Preserves (start_call session) caller user allowed =
      Preserves-then IsOwned _ _ (start-Preserves session caller user allowed) (λ d h. h)
  handle-Preserves (stop_call quit_session) caller user allowed =
      Preserves-then IsOwned _ _
        (Preserves-then IsOwned _ _ (validate_session_owner-Preserves H (IsOwnedBy Q) caller)
          (stop-Preserves H (IsOwnedBy Q) tt quit_session))
        (λ d h. h)
  handle-Preserves freeze_call caller user allowed =
      Preserves-then IsOwned _ _ (guarded-Preserves H (IsOwnedBy Q) caller _) (λ d h. h)
  handle-Preserves unfreeze_call caller user allowed =
      Preserves-then IsOwned _ _ (guarded-Preserves H (IsOwnedBy Q) caller _) (λ d h. h)
  handle-Preserves get_session_call caller user allowed =
      Preserves-bind IsOwned _ _ (get_session-Preserves caller) (λ session d h. h)

  -- No caller is root, and each is a user of the kind.
  abbrev pub AllUsers : List (Call × Caller) → Type 0
  AllUsers [] = Unit
  AllUsers ((_, caller) ∷ rest) =
      ((str caller.uid == "0") ≡ false) × Q (str caller.uid) × AllUsers rest

  -- For every kind of users: if the tracked session, should there be one, names a user of the
  -- kind, and every caller in a sequence of calls is not root and is a user of the kind, then
  -- after the daemon has served them the tracked session, should there be one, names a user of
  -- the kind.
  pub serve-IsOwnedBy :
      (calls : List (Call × Caller)) (d : Daemon H)
      → IsOwnedBy Q d.session
      → AllUsers calls
      → IsOwnedBy Q (serve H calls d).session
  unfolding serve
  serve-IsOwnedBy [] d h users = h
  serve-IsOwnedBy ((call, caller) ∷ rest) d h (user, allowed, users) =
      serve-IsOwnedBy rest (handle H call caller d).1
        (handle-Preserves call caller user allowed d h) users
