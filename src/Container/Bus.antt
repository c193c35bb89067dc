-- ===== src/Container/Bus.antt =====
-- tools/actions/container_manager.py: `DbusContainerManager`, the calls that the daemon serves.
use waydroid.Base.{ℕ, Bool, true, false, not, Option, none, some, List, [], ◌∷◌, M, Result, ok}
use waydroid.Base.{NoneType, pure, raise, gets, query, modify, runtime_error, when, contains}
use waydroid.Base.{◌>>=◌, ◌>>◌, ◌==◌, string_eq, then_result, if◌then◌else◌}
use waydroid.Base.Text.{str}
use waydroid.Base.Dict
use waydroid.Base.Dict.{item}
use waydroid.Container.Daemon.{Daemon, do_start, lift, set_session}
use waydroid.Container.Daemon
use waydroid.Container.Steps
use waydroid.Host.{Host}
use waydroid.Images.Rootfs.{Session}
use waydroid.Initializer.{is_initialized}
use waydroid.Lxc.Control.{status}

-- What the bus says of the process that makes a call.
pub record Caller : Type 0 where
  pub uid : ℕ
  pub pid : ℕ

-- Whether the caller is the session's user, for `_validate_session_owner`.
unfoldable pub owns : Caller → Option Session → Result Bool
owns caller none = ok false
owns caller (some session) =
    then_result (item "user_id" session) (λ user_id. ok (str caller.uid == user_id))

module _ (H : Host) where
  unfoldable pub require_initialized : M (Daemon H) NoneType
  require_initialized = do
    initialized ← lift (gets (is_initialized H))
    when (not initialized) (raise (runtime_error "Waydroid is not initialized"))

  unfoldable pub validate_session_owner : Caller → M (Daemon H) NoneType
  validate_session_owner caller = if str caller.uid == "0" then pure tt else (do
    owner ← query (λ d. owns caller d.session)
    when (not owner) (raise (runtime_error "Cannot control a session on behalf of another user")))

  unfoldable pub start : Session → Caller → M (Daemon H) NoneType
  start session caller = do
    user_id ← query (λ _. item "user_id" session)
    when (not (contains ("0" ∷ user_id ∷ []) (str caller.uid)))
        (raise (runtime_error "Cannot start a session on behalf of another user"))
    -- `session["pid"]` is looked up for a caller other than root only
    own_pid ← query (λ _.
        if str caller.uid == "0"
        then ok true
        else then_result (item "pid" session) (λ pid. ok (str caller.pid == pid)))
    when (not own_pid) (raise (runtime_error "Invalid session pid"))
    do_start H session

  unfoldable pub stop : Bool → Caller → M (Daemon H) NoneType
  stop quit_session caller = do validate_session_owner caller; Daemon.stop H quit_session

  unfoldable pub freeze : Caller → M (Daemon H) NoneType
  freeze caller = do require_initialized; validate_session_owner caller; lift (Steps.freeze H)

  unfoldable pub unfreeze : Caller → M (Daemon H) NoneType
  unfreeze caller = do require_initialized; validate_session_owner caller; lift (Steps.unfreeze H)

  -- The dictionary that is returned is the tracked one, with its state set.
  unfoldable pub report : Option Session → M (Daemon H) Session
  report none = pure []
  report (some session) = do
    seen ← lift (status H)
    modify (set_session (some (Dict.insert "state" seen session)))
    pure (Dict.insert "state" seen session)

  unfoldable pub get_session : Caller → M (Daemon H) Session
  get_session caller = do
    require_initialized
    validate_session_owner caller
    tracked ← gets (λ d. d.session)
    report tracked

-- The methods of the interface, with their arguments.
pub data Call : Type 0 where
  start_call : Session → Call
  stop_call : Bool → Call
  freeze_call unfreeze_call get_session_call : Call

-- What a call answers.
pub data Reply : Type 0 where
  nothing : Reply
  session_reply : Session → Reply

module _ (H : Host) where
  unfoldable pub handle : Call → Caller → M (Daemon H) Reply
  handle (start_call session) caller = start H session caller >> pure nothing
  handle (stop_call quit_session) caller = stop H quit_session caller >> pure nothing
  handle freeze_call caller = freeze H caller >> pure nothing
  handle unfreeze_call caller = unfreeze H caller >> pure nothing
  handle get_session_call caller = do session ← get_session H caller; pure (session_reply session)

  -- The main loop serves one call after the other; an exception is the call's answer and does not
  -- end the daemon.
  unfoldable pub serve : List (Call × Caller) → Daemon H → Daemon H
  serve [] d = d
  serve ((call, caller) ∷ rest) d = let (_, e) = handle call caller d in serve rest e
