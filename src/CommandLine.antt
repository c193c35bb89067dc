-- ===== src/CommandLine.antt =====
-- tools/__init__.py: the dispatch of the command line, with its guards.
pub mod Guards
use waydroid.Base.{
  ℕ, String, ◌<>◌, Bool, true, false, not, ◌&&◌, ◌||◌, Option, none, some, List, [], ◌∷◌,
}
use waydroid.Base.{M, Exc, NoneType, runtime_error, pure, raise, gets, when, except_any}
use waydroid.Base.{◌>>=◌, ◌>>◌, ◌==◌, string_eq, if◌then◌else◌}
use waydroid.Base.Dict.{Dict, lookup}
use waydroid.Host.{Host}
use waydroid.Initializer.{is_initialized}
use waydroid.Run.{run, user}

-- What other modules do for an action: their functions that the table names, and `remote_init_client`
-- and `init` of the initializer.
pub data Leaf : Type 0 where
  remote_init_client init_images upgrade : Leaf
  session_start session_stop : Leaf
  container_start container_stop container_restart container_freeze container_unfreeze : Leaf
  app_install app_remove app_launch app_intent app_list : Leaf
  prop_get prop_set shell logcat show_full_ui status : Leaf
  adb_connect adb_disconnect bugreport : Leaf
  arm_install arm_status arm_uninstall : Leaf

-- A handler of the table: a function of this module, or one of another.
pub data Handler : Type 0 where
  init first_launch log : Handler
  other : Leaf → Handler

-- `_ActionEntry`, with its guard flags
pub record Entry : Type 0 where
  pub handlers : List (Option String × Handler)
  pub need_root : Bool
  pub allowed_uninitialized : Bool

-- What `helpers.arguments` has read.
pub record Arguments : Type 0 where
  pub action : Option String
  pub subaction : Option String
  pub log : Option String
  pub details_to_stdout : Bool
  pub client : Bool
  pub clear_log : Bool
  pub lines : String

-- The process and its environment, and what the handlers of other modules do. `root` is whether
-- `os.geteuid()` is 0.
pub record Program (H : Host) : Type 0 where
  pub root : Bool
  pub perform : Leaf → Arguments → M (Host.State H) NoneType
  -- `os.access(path, os.R_OK)`
  pub readable : String → Host.State H → Bool
  -- `tools_logging.init`, and the main loop of D-Bus
  pub init_logging : String → M (Host.State H) NoneType
  pub init_dbus : M (Host.State H) NoneType
  pub print : String → M (Host.State H) NoneType
  -- the hint that repeats the command
  pub details_hint : String

abbrev pub one : Handler → List (Option String × Handler)
one h = (none, h) ∷ []

abbrev pub sub : String → Leaf → Option String × Handler
sub name leaf = (some name, other leaf)

abbrev pub entry : Bool → Bool → List (Option String × Handler) → Entry
entry root uninitialized handlers = record {
  handlers = handlers;
  need_root = root;
  allowed_uninitialized = uninitialized;
}

-- `DISPATCH`
unfoldable pub dispatch : Dict String Entry
dispatch =
    ("init", entry false true (one init))
    ∷ ("upgrade", entry true false (one (other upgrade)))
    ∷ ("session", entry false false (sub "start" session_start ∷ sub "stop" session_stop ∷ []))
    ∷ (
      "container",
      entry true true (
          sub "start" container_start
          ∷ sub "stop" container_stop
          ∷ sub "restart" container_restart
          ∷ sub "freeze" container_freeze
          ∷ sub "unfreeze" container_unfreeze
          ∷ []),
    )
    ∷ (
      "app",
      entry false false (
          sub "install" app_install
          ∷ sub "remove" app_remove
          ∷ sub "launch" app_launch
          ∷ sub "intent" app_intent
          ∷ sub "list" app_list
          ∷ []),
    )
    ∷ ("prop", entry false false (sub "get" prop_get ∷ sub "set" prop_set ∷ []))
    ∷ ("shell", entry true false (one (other shell)))
    ∷ ("logcat", entry true false (one (other logcat)))
    ∷ ("show-full-ui", entry false false (one (other show_full_ui)))
    ∷ ("first-launch", entry false true (one first_launch))
    ∷ ("status", entry false false (one (other status)))
    ∷ ("adb", entry false false (sub "connect" adb_connect ∷ sub "disconnect" adb_disconnect ∷ []))
    ∷ ("log", entry false true (one log))
    ∷ ("bugreport", entry false true (one (other bugreport)))
    ∷ (
      "arm-translation",
      entry true false (
          sub "install" arm_install ∷ sub "status" arm_status ∷ sub "uninstall" arm_uninstall ∷ []),
    )
    ∷ []

-- `None` and a name of a subaction differ.
abbrev pub same_sub : Option String → Option String → Bool
same_sub none none = true
same_sub (some a) (some b) = a == b
same_sub _ _ = false

-- `action_handlers.get(subaction)`
unfoldable pub handler_of : Option String → List (Option String × Handler) → Option Handler
handler_of subaction [] = none
handler_of subaction ((name, h) ∷ rest) =
    if same_sub subaction name then some h else handler_of subaction rest

-- `args.log` and `args.config` of `prep_args`, and the per-user log
abbrev pub work_log : String
work_log = "/var/lib/waydroid/waydroid.log"

abbrev pub action_of : Arguments → String
action_of args = elim args.action [ none ↦ "first-launch" | some action ↦ action ]

-- `args.action not in ALLOWED_UNINITIALIZED`
unfoldable pub needs_initialized : String → Bool
needs_initialized action = elim (lookup action dispatch) [
  | none ↦ true
  | some e ↦ not e.allowed_uninitialized
]

abbrev pub is_given : Option String → Bool
is_given none = false
is_given (some text) = not (text == "")

module _ (H : Host) (P : Program H) where
  open H use {State}

  unfoldable pub action_need_root : String → M State NoneType
  action_need_root action =
      if P.root
      then pure tt
      else raise (runtime_error ("Action \"" <> (action <> "\" needs root access")))

  -- `args.log` once the log is chosen: the user's, or the root one, or the per-user one.
  unfoldable pub chosen_log : Arguments → State → String
  chosen_log args s =
      let fallback : String =
        if not P.root && not (H.exists work_log s) then "/tmp/tools.log" else work_log in
      elim args.log [ none ↦ fallback | some text ↦ if text == "" then fallback else text ]

  unfoldable pub log_path : Arguments → String → State → String
  log_path args current s =
      if (not P.root && not (is_given args.log)) && P.readable work_log s then work_log else current

  -- Interrupting `tail` at the terminal is left out.
  unfoldable pub follow_log : Arguments → String → M State NoneType
  follow_log args current = do
    path ← gets (log_path args current)
    when args.clear_log (run H ("truncate" ∷ "-s" ∷ "0" ∷ current ∷ []))
    user H ("tail" ∷ "-n" ∷ args.lines ∷ "-F" ∷ path ∷ [])
        (record { output = "tui"; output_return = false; check = none })
    pure tt

  unfoldable pub launch_first : Arguments → M State NoneType
  launch_first args = do
    initialized ← gets (is_initialized H)
    when (not initialized) (P.perform remote_init_client args)
    ready ← gets (is_initialized H)
    when ready (P.perform show_full_ui args)

  unfoldable pub init_action : Arguments → M State NoneType
  init_action args =
      if args.client
      then P.perform remote_init_client args
      else action_need_root "init" >> P.perform init_images args

  unfoldable pub handle : Arguments → String → Handler → M State NoneType
  handle args current init = init_action args
  handle args current first_launch = launch_first args
  handle args current log = follow_log args current
  handle args current (other leaf) = P.perform leaf args

  -- Where the table has nothing, a hint is only logged.
  unfoldable pub handle_entry : Arguments → String → Entry → M State NoneType
  handle_entry args current e = do
    when e.need_root (action_need_root (action_of args))
    elim (handler_of args.subaction e.handlers) [ none ↦ pure tt | some h ↦ handle args current h ]

  unfoldable pub dispatch_action : Arguments → String → M State NoneType
  dispatch_action args current = elim (lookup (action_of args) dispatch) [
    | none ↦ pure tt
    | some e ↦ handle_entry args current e
  ]

  unfoldable pub dispatch_initialized : Arguments → String → M State (Option ℕ)
  dispatch_initialized args current = do
    initialized ← gets (is_initialized H)
    if not initialized && needs_initialized (action_of args)
        then P.print "Waydroid is not initialized, run \"waydroid init\"" >> pure (some 0)
        else dispatch_action args current >> pure none

  unfoldable pub prepare : String → M State NoneType
  prepare current = P.init_logging current >> P.init_dbus

  unfoldable pub make_work : M State NoneType
  make_work = do
    exists ← gets (H.exists "/var/lib/waydroid")
    when (P.root && not exists) (H.make_dir "/var/lib/waydroid")

  -- An exception ends in the code 1, and in a hint.
  unfoldable pub fail : Arguments → String → M State (Option ℕ)
  fail args current = if args.details_to_stdout then pure (some 1) else (do
    exists ← gets (H.exists current)
    P.print (
        if not exists || not (action_of args == "container")
        then P.details_hint
        else "Run 'waydroid log' for details.")
    pure (some 1))

  unfoldable pub main_at : Arguments → String → M State (Option ℕ)
  main_at args current =
      except_any (prepare current >> dispatch_initialized args current) (λ _. fail args current)

  -- From the arguments on. `none` is None, which `sys.exit` takes for success.
  unfoldable pub main : Arguments → M State (Option ℕ)
  main args = do
    made ← except_any (make_work >> pure true) (λ _. pure false)
    if made then (do current ← gets (chosen_log args); main_at args current) else fail args work_log
