-- ===== src/Container/Admission.antt =====
-- tools/actions/container_manager.py: whose sessions the daemon's `Start` accepts.
use waydroid.Base.{
  same_text, ◌≡◌, refl, ap, ◌∙◌, sym, ◌⊎◌, inl, inr, String, Bool, true, false, not, ◌||◌, some, [],
  ◌∷◌,
}
use waydroid.Base.{ok, then_result, contains, ◌==◌, string_eq}
use waydroid.Base.{if◌then◌else◌}
use waydroid.Base.Dict.{item}
use waydroid.Base.Refusal.{bind-eq-ok, guard-eq-ok, then_result-eq-ok}
use waydroid.Base.Text.{str}
use waydroid.Container.Bus.{Caller, start}
use waydroid.Container.Daemon.{Daemon}
use waydroid.Container.Tracking.{do_start-tracks}
use waydroid.Host.{Host}
use waydroid.Images.Rootfs.{Session}

-- Root, or the process that the session names, run by the user that it names.
abbrev pub IsAdmitted : Session → Caller → Type 0
IsAdmitted session caller =
    ((str caller.uid == "0") ≡ true)
    ⊎ ((item "user_id" session ≡ ok (str caller.uid)) × (item "pid" session ≡ ok (str caller.pid)))

not-false : (b : Bool) → not b ≡ false → b ≡ true
not-false true h = refl
not-false false h = cc

or-false : (b : Bool) → (b || false) ≡ true → b ≡ true
or-false true h = refl
or-false false h = h

admitted :
    (session : Session) (caller : Caller) (user_id : String) (own : Bool)
    → item "user_id" session ≡ ok user_id
    → contains ("0" ∷ user_id ∷ []) (str caller.uid) ≡ true
    → (if str caller.uid == "0"
        then ok true
        else then_result (item "pid" session) (λ pid. ok (str caller.pid == pid)))
      ≡ ok own
    → own ≡ true
    → IsAdmitted session caller
admitted session caller user_id own named listed asked yes_own =
    go (str caller.uid == "0") refl listed asked
  where
    injected : (b : Bool) → ok b ≡ ok own → b ≡ true
    injected b q = let e : b ≡ own = cc in e ∙ yes_own

    go :
        (root : Bool)
        → (str caller.uid == "0") ≡ root
        → (root || (str caller.uid == user_id || false)) ≡ true
        → (if root
            then ok true
            else then_result (item "pid" session) (λ pid. ok (str caller.pid == pid)))
          ≡ ok own
        → IsAdmitted session caller
    go true e l a = inl e
    go false e l a =
        let (pid, found, same) = then_result-eq-ok (item "pid" session) _ own a in
        let user : str caller.uid ≡ user_id = same_text _ _ (or-false _ l) in
        let process : str caller.pid ≡ pid = same_text _ _ (injected _ same) in
        inr (named ∙ ap ok (sym user), found ∙ ap ok (sym process))

module _ (H : Host) where
  -- A Start that returns was called by root, or by the process whose user and process id the
  -- session names; the daemon then tracks that session.
  pub start-IsAdmitted :
      (session : Session) (caller : Caller) (d e : Daemon H)
      → start H session caller d ≡ (ok tt, e)
      → IsAdmitted session caller × (e.session ≡ some session)
  unfolding start
  start-IsAdmitted session caller d e h =
      let (user_id, d1, p1, h1) = bind-eq-ok _ _ d e tt h in
      let (listed, h2) = guard-eq-ok _ _ _ d1 e tt h1 in
      let (own, d3, p3, h3) = bind-eq-ok _ _ d1 e tt h2 in
      let (own_pid, h4) = guard-eq-ok _ _ _ d3 e tt h3 in
      let (_, tracked, _) = do_start-tracks H session d3 e h4 in
      (
        admitted session caller user_id own (ap (λ q. q.0) p1) (not-false _ listed)
            (ap (λ q. q.0) p3) (not-false _ own_pid),
        tracked,
      )
