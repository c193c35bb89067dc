-- ===== src/Container/Refinement.antt =====
-- tools/actions/container_manager.py: the daemon as a machine that is free or held by a user.
use waydroid.Base.{
  ◌≡◌, ◌≢◌, refl, ap, ◌∙◌, sym, ◌⊎◌, inl, inr, String, Bool, true, false, not, Option, none, some,
  List, [], ◌∷◌,
}
use waydroid.Base.{arith, Result, ok, raised, M, NoneType, pure, gets, ◌>>=◌, ◌>>◌, ◌==◌, string_eq}
use mathlib.Core.Path.{subst}
use waydroid.Base.{then_do, raise, Exc}
use waydroid.Base.Dict
use waydroid.Base.Text.{str}
use waydroid.Container.Bus.{
  Caller, Call, nothing, start_call, stop_call, freeze_call, unfreeze_call, get_session_call,
  handle, serve,
}
use waydroid.Base.Dict.{Dict, is_some, item, item-eq-ok, lookup-insert_ne}
use waydroid.Base.Refusal.{bind-eq-ok, query-eq-ok, if-eq-ok, when-eq-ok, then_result-eq-ok}
use waydroid.Base.Preserving.{Preserves, Preserves-bind, Preserves-then}
use waydroid.Container.Admission.{start-IsAdmitted}
use waydroid.Container.Bus.{
  start, stop, freeze, unfreeze, get_session, report, owns, validate_session_owner,
}
use waydroid.Container.Specification.{
  Holder, free, held, holder_of, IsRoot, Step, stays, taken_by_root, taken, freed_by_root, freed,
  Steps, done, next, callers,
}
use waydroid.Container.Isolation.{start-Refuses}
use waydroid.Container.Keeping.{
  start-KeepsOnRaise, guarded-Preserves, validate_session_owner-Preserves,
  require_initialized-Preserves, stop-Preserves, lift-Preserves,
}
use waydroid.Lxc.Control.{status}
use waydroid.Container.Daemon.{Daemon, lift}
use waydroid.Container.Daemon
use waydroid.Host.{Host}
use waydroid.Images.Rootfs.{Session}

keys_differ : ◌==◌ {A = String} "user_id" "state" ≡ false
unfolding string_eq
keys_differ = refl

-- A caller whom the specification lets free a machine that is held.
abbrev IsPermitted : Caller → Option Session → Type 0
IsPermitted caller none = Unit
IsPermitted caller (some session) =
    IsRoot caller ⊎ (Dict.lookup "user_id" session ≡ some (str caller.uid))

freeing :
    (caller : Caller) (session : Session)
    → IsPermitted caller (some session)
    → Step caller (holder_of (some session)) free
freeing caller session (inl root) = freed_by_root root
freeing caller session (inr named) = subst (λ user. Step caller (held user) free) (sym named) freed

-- A step to a session that is gone, or is the old one.
ending :
    (caller : Caller) (before after : Option Session)
    → IsPermitted caller before
    → (after ≡ none) ⊎ (after ≡ before)
    → Step caller (holder_of before) (holder_of after)
ending caller before after permitted (inr same) =
    subst (λ o. Step caller (holder_of before) (holder_of o)) (sym same) stays
ending caller none after permitted (inl gone) =
    subst (λ o. Step caller free (holder_of o)) (sym gone) stays
ending caller (some session) after permitted (inl gone) =
    subst (λ o. Step caller (holder_of (some session)) (holder_of o)) (sym gone)
      (freeing caller session permitted)

moved : {caller : Caller} {a b c d : Holder} → a ≡ b → c ≡ d → Step caller b d → Step caller a c
moved {caller} {a} {b} {c} {d} p q step =
    subst (λ h. Step caller a h) (sym q) (subst (λ h. Step caller h d) (sym p) step)

not-not : (b : Bool) → not b ≡ false → b ≡ true
not-not b h = ground arith

owns-IsPermitted :
    (caller : Caller) (o : Option Session) → owns caller o ≡ ok true → IsPermitted caller o
unfolding owns
owns-IsPermitted caller none h = tt
owns-IsPermitted caller (some session) h =
    let (user, p, h1) = then_result-eq-ok (item "user_id" session) _ true h in
    inr (item-eq-ok "user_id" (str caller.uid) session (p ∙ ap ok (same_user user h1)))
  where
    same_user :
        (user : String)
        → ◌≡◌ {A = Result Bool} (ok (str caller.uid == user)) (ok true)
        → user ≡ str caller.uid
    same_user user e = ground arith

module _ (H : Host) where
  -- What is done of a chain, up to a last step that gives no more than an answer.
  after_pure :
      {A B : Type 0} (m : M (Daemon H) A) (b : B) (d : Daemon H) → ((m >> pure b) d).1 ≡ (m d).1
  unfolding ◌>>◌
  after_pure {A} {B} m b d = go (m d)
    where
      go :
          (p : Result A × Daemon H)
          → (let r : Result B × Daemon H = then_do p (λ _. pure b) in r).1 ≡ p.1
      go (ok a, e) = refl
      go (raised x, e) = refl

  start_user :
      (session : Session) (caller : Caller) (d e : Daemon H)
      → start H session caller d ≡ (ok tt, e)
      → (user : String) × (Dict.lookup "user_id" session ≡ some user)
  unfolding start
  start_user session caller d e h =
      let (user, u, p, _) = bind-eq-ok _ _ d e tt h in
      let (_, found) = query-eq-ok (λ _. item "user_id" session) d u user p in
      (user, item-eq-ok "user_id" user session found)

  idle :
      (session : Session) (caller : Caller) (d e : Daemon H)
      → start H session caller d ≡ (ok tt, e)
      → d.session ≡ none
  idle session caller d e h = go d.session refl
    where
      go : (o : Option Session) → d.session ≡ o → d.session ≡ none
      go none q = q
      go (some tracked) q = let (x, p) = start-Refuses H session caller d (rw q refl) in cc

  start-Step :
      (session : Session) (caller : Caller) (d : Daemon H)
      → Step caller (holder_of d.session) (holder_of (start H session caller d).1.session)
  start-Step session caller d = go (start H session caller d) refl
    where
      go :
          (p : Result NoneType × Daemon H)
          → start H session caller d ≡ p
          → Step caller (holder_of d.session) (holder_of p.1.session)
      go (ok _, e) q =
          let (admission, tracked) = start-IsAdmitted H session caller d e q in
          let (user, named) = start_user session caller d e q in
          let before : holder_of d.session ≡ free = ap holder_of (idle session caller d e q) in
          let behind : holder_of e.session ≡ held (Dict.lookup "user_id" session) =
            ap holder_of tracked in
          elim admission [
            | inl root ↦ moved before (behind ∙ ap held named) (taken_by_root root)
            | inr (own, _) ↦
                moved before (behind ∙ ap held (item-eq-ok "user_id" _ session own)) taken
          ]
      go (raised x, e) q =
          let same : e.session ≡ d.session =
            ap (λ r. r.1.session) (sym q)
            ∙ start-KeepsOnRaise H session caller d x (ap (λ r. r.0) q) in
          subst (λ o. Step caller (holder_of d.session) (holder_of o)) (sym same) stays

  -- The check of the caller reads the daemon only, and lets root and the session's user pass.
  validated :
      (caller : Caller) (d e : Daemon H)
      → validate_session_owner H caller d ≡ (ok tt, e)
      → (d ≡ e) × IsPermitted caller d.session
  unfolding validate_session_owner
  validated caller d e h = elim (if-eq-ok (str caller.uid == "0") (pure tt) _ d e tt h) [
    | inl (root, passed) ↦ (cc, by_root d.session root)
    | inr (user, asked) ↦
        let (owner, u, p, h1) = bind-eq-ok _ _ d e tt asked in
        let (same, owned) = query-eq-ok (λ d. owns caller d.session) d u owner p in
        let (good, passed) = when-eq-ok (not owner) _ u e (λ q. never q) h1 in
        (
          same ∙ passed,
          owns-IsPermitted caller d.session (
              ap (λ (f : Daemon H). owns caller f.session) same
              ∙ (owned ∙ ap ok (not-not owner good))),
        )
  ]
    where
      never : {x : Exc} {u e : Daemon H} → raise x u ≢ (ok tt, e)
      never q = cc

      by_root : (o : Option Session) → IsRoot caller → IsPermitted caller o
      by_root none root = tt
      by_root (some session) root = inl root

  stop-ends :
      (quit_session : Bool) (d : Daemon H)
      → ((Daemon.stop H quit_session d).1.session ≡ none)
        ⊎ ((Daemon.stop H quit_session d).1.session ≡ d.session)
  stop-ends quit_session d =
      stop-Preserves H (λ o. (o ≡ none) ⊎ (o ≡ d.session)) (inl refl) quit_session d (inr refl)

  stop-Step :
      (quit_session : Bool) (caller : Caller) (d : Daemon H)
      → Step caller (holder_of d.session) (holder_of (stop H quit_session caller d).1.session)
  unfolding stop ◌>>◌
  stop-Step quit_session caller d = go (validate_session_owner H caller d) refl
    where
      go :
          (p : Result NoneType × Daemon H)
          → validate_session_owner H caller d ≡ p
          → Step caller
              (holder_of d.session)
              (holder_of (then_do p (λ _. Daemon.stop H quit_session)).1.session)
      go (ok _, e) q =
          let (same, permitted) = validated caller d e q in
          subst
            (λ f.
              Step caller (holder_of d.session)
                (holder_of (Daemon.stop H quit_session f).1.session))
            same (ending caller d.session _ permitted (stop-ends quit_session d))
      go (raised x, e) q =
          let kept : holder_of e.session ≡ holder_of d.session =
            subst (λ r. holder_of r.1.session ≡ holder_of d.session) q
              (validate_session_owner-Preserves H (λ o. holder_of o ≡ holder_of d.session) caller d
                refl) in
          moved refl kept stays

  -- A call that leaves the holder as it was, however it ends.
  quiet :
      {A : Type 0} (caller : Caller) (m : M (Daemon H) A) (d : Daemon H)
      → Preserves (λ e. holder_of e.session ≡ holder_of d.session) m
      → Step caller (holder_of d.session) (holder_of (m d).1.session)
  quiet caller m d kept = moved refl (kept d refl) stays

  report-holder :
      (h : Holder) (found : Option Session) (d : Daemon H)
      → holder_of found ≡ h
      → holder_of d.session ≡ h
      → holder_of (report H found d).1.session ≡ h
  unfolding report
  report-holder h none d found now = now
  report-holder h (some session) d found now =
      Preserves-bind (λ (e : Daemon H). holder_of e.session ≡ h) (lift (status H)) _
        (lift-Preserves H (λ o. holder_of o ≡ h) (status H))
        (λ seen.
          Preserves-then (λ (e : Daemon H). holder_of e.session ≡ h) _ _
            (λ e _. ap held (lookup-insert_ne "user_id" "state" seen session keys_differ) ∙ found)
            (λ e k. k))
        d now

  reported :
      (h : Holder)
      → Preserves
          (λ (e : Daemon H). holder_of e.session ≡ h)
          (gets (λ (d : Daemon H). d.session) >>= report H)
  unfolding ◌>>=◌
  reported h d k = report-holder h d.session d k k

  get_session-holder :
      (h : Holder) (caller : Caller)
      → Preserves (λ (e : Daemon H). holder_of e.session ≡ h) (get_session H caller)
  unfolding get_session
  get_session-holder h caller =
      let P : Option Session → Type 0 = λ o. holder_of o ≡ h in
      Preserves-then (λ (e : Daemon H). P e.session) _ _ (require_initialized-Preserves H P)
        (Preserves-then (λ (e : Daemon H). P e.session) _ _
          (validate_session_owner-Preserves H P caller) (reported h))

  handle-Step :
      (call : Call) (caller : Caller) (d : Daemon H)
      → Step caller (holder_of d.session) (holder_of (handle H call caller d).1.session)
  unfolding handle freeze unfreeze
  handle-Step (start_call session) caller d =
      moved refl (ap (λ e. holder_of e.session) (after_pure (start H session caller) _ d))
        (start-Step session caller d)
  handle-Step (stop_call quit_session) caller d =
      moved refl (ap (λ e. holder_of e.session) (after_pure (stop H quit_session caller) _ d))
        (stop-Step quit_session caller d)
  handle-Step freeze_call caller d = quiet caller (freeze H caller >> pure nothing) d (
      Preserves-then _ _ _ (guarded-Preserves H (λ o. holder_of o ≡ holder_of d.session) caller _)
        (λ e k. k))
  handle-Step unfreeze_call caller d = quiet caller (unfreeze H caller >> pure nothing) d (
      Preserves-then _ _ _ (guarded-Preserves H (λ o. holder_of o ≡ holder_of d.session) caller _)
        (λ e k. k))
  handle-Step get_session_call caller d =
      quiet caller (handle H get_session_call caller) d
        (Preserves-bind _ _ _ (get_session-holder (holder_of d.session) caller) (λ session e k. k))

  -- Each sequence of calls that the daemon serves is a sequence of steps of the specification,
  -- by the same callers, from the holder before to the holder behind: a free machine is taken
  -- by root for a user or by a user for himself, a held one is freed by root or by its holder,
  -- and otherwise nothing happens.
  pub serve-Steps :
      (calls : List (Call × Caller)) (d : Daemon H)
      → Steps (callers calls) (holder_of d.session) (holder_of (serve H calls d).session)
  unfolding serve
  serve-Steps [] d = done
  serve-Steps ((call, caller) ∷ rest) d =
      next (handle-Step call caller d) (serve-Steps rest (handle H call caller d).1)
