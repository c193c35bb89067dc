-- ===== src/Container/Isolation.antt =====
-- tools/actions/container_manager.py: what a caller that owns no part of the session can do.
use waydroid.Base.{◌≡◌, ◌≢◌, refl, ap, ◌∙◌, Bool, true, false, not, Option, List, []}
use waydroid.Base.{◌∷◌, Result, ok, raised, Refuses, pure, raise, of_result, M, query, when}
use waydroid.Base.{runtime_error, ◌>>=◌, ◌>>◌, ◌==◌, string_eq, if◌then◌else◌}
use waydroid.Base.Refusal.{
  Refuses-bind, Refuses-then, Refuses-query, Refuses-guard, Refuses-at_guard,
}
use waydroid.Base.Dict.{is_some}
use waydroid.Base.Text.{str}
use waydroid.Container.Bus.{
  Caller, Call, start_call, stop_call, freeze_call, unfreeze_call, get_session_call, owns,
  validate_session_owner, require_initialized, handle, serve,
}
use waydroid.Container.Bus.{start, stop, freeze, unfreeze, get_session}
use waydroid.Container.Daemon.{Daemon, do_start, lift}
use waydroid.Host.{Host}
use waydroid.Images.Rootfs.{Session}
use waydroid.Initializer.{is_initialized}

-- Neither root nor the user of the session.
abbrev pub IsStranger : Option Session → Caller → Type 0
IsStranger tracked caller = ((str caller.uid == "0") ≡ false) × (owns caller tracked ≢ ok true)

abbrev pub AllStrangers : Option Session → List (Call × Caller) → Type 0
AllStrangers tracked [] = Unit
AllStrangers tracked ((call, caller) ∷ rest) = IsStranger tracked caller × AllStrangers tracked rest

module _ (H : Host) where
  pub validate_session_owner-Refuses :
      (caller : Caller) (d : Daemon H)
      → IsStranger d.session caller
      → Refuses (validate_session_owner H caller) d
  unfolding validate_session_owner ◌>>=◌
  validate_session_owner-Refuses caller d (user, other) = go (str caller.uid == "0") user
    where
      not_owner :
          (r : Result Bool)
          → r ≢ ok true
          → Refuses
              (of_result r >>= (λ owner.
                when
                  (not owner)
                  (raise (runtime_error "Cannot control a session on behalf of another user"))))
              d
      not_owner (ok true) h = absurd (h refl)
      not_owner (ok false) h = (_, refl)
      not_owner (raised e) h = (e, refl)

      go :
          (b : Bool)
          → b ≡ false
          → Refuses
              (if b then pure tt else (do
                owner ← query (λ d. owns caller d.session)
                when
                    (not owner)
                    (raise (runtime_error "Cannot control a session on behalf of another user"))))
              d
      go true h = cc
      go false h = not_owner (owns caller d.session) other

  -- A call that first asks whether the program is initialized.
  guarded-Refuses :
      {A : Type 0} (k : M (Daemon H) A) (caller : Caller) (d : Daemon H)
      → IsStranger d.session caller
      → Refuses (require_initialized H >> (validate_session_owner H caller >> k)) d
  unfolding require_initialized lift ◌>>=◌ ◌>>◌
  guarded-Refuses k caller d other = Refuses-guard (not (is_initialized H d.os)) _ _ d (
      Refuses-then (validate_session_owner H caller) k d
        (validate_session_owner-Refuses caller d other))

  do_start-Refuses :
      (session : Session) (d : Daemon H) → is_some d.session ≡ true → Refuses (do_start H session) d
  unfolding do_start lift ◌>>=◌
  do_start-Refuses session d tracked =
      Refuses-guard (not (is_initialized H d.os)) _ _ d (Refuses-at_guard _ _ _ d tracked)

  pub start-Refuses :
      (session : Session) (caller : Caller) (d : Daemon H)
      → is_some d.session ≡ true
      → Refuses (start H session caller) d
  unfolding start
  start-Refuses session caller d tracked = Refuses-query _ _ d (λ user_id.
      Refuses-guard _ _ _ d (
        Refuses-query _ _ d
          (λ own_pid. Refuses-guard _ _ _ d (do_start-Refuses session d tracked))))

  -- A call of a stranger raises and changes nothing, while a session is tracked.
  pub handle-Refuses :
      (call : Call) (caller : Caller) (d : Daemon H)
      → is_some d.session ≡ true
      → IsStranger d.session caller
      → Refuses (handle H call caller) d
  unfolding handle stop freeze unfreeze get_session
  handle-Refuses (start_call session) caller d tracked other =
      Refuses-then _ _ d (start-Refuses session caller d tracked)
  handle-Refuses (stop_call quit_session) caller d tracked other =
      Refuses-then _ _ d (Refuses-then _ _ d (validate_session_owner-Refuses caller d other))
  handle-Refuses freeze_call caller d tracked other =
      Refuses-then _ _ d (guarded-Refuses _ caller d other)
  handle-Refuses unfreeze_call caller d tracked other =
      Refuses-then _ _ d (guarded-Refuses _ caller d other)
  handle-Refuses get_session_call caller d tracked other =
      Refuses-bind _ _ d (guarded-Refuses _ caller d other)

  -- While the daemon tracks a session, every sequence of calls on its bus by callers that are
  -- neither root nor that session's user (Start, Stop, Freeze, Unfreeze and GetSession, in any
  -- order and with any arguments) leaves the daemon and its host exactly as they were.
  pub serve-strangers :
      (calls : List (Call × Caller)) (d : Daemon H)
      → is_some d.session ≡ true
      → AllStrangers d.session calls
      → serve H calls d ≡ d
  unfolding serve
  serve-strangers [] d tracked others = refl
  serve-strangers ((call, caller) ∷ rest) d tracked (other, others) =
      let (e, p) = handle-Refuses call caller d tracked other in
      ap (λ q. serve H rest q.1) p ∙ serve-strangers rest d tracked others
