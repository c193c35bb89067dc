-- ===== src/CommandLine/Guards.antt =====
-- tools/__init__.py: what the guards keep a user from.
use waydroid.Base.{
  ◌≡◌, refl, ap, sym, ◌∙◌, String, Bool, true, false, not, ◌&&◌, ◌||◌, Option, none, some, List, [],
  ◌∷◌,
}
use waydroid.Base.{
  M, Exc, NoneType, pure, raise, gets, when, except_any, ◌>>=◌, ◌>>◌, ◌==◌, string_eq,
  if◌then◌else◌,
}
use waydroid.Base.Dict.{Dict, lookup}
use waydroid.CommandLine
use waydroid.CommandLine.{
  Leaf, Handler, other, init, first_launch, log, Entry, Arguments, Program, dispatch, handler_of,
  same_sub, action_of,
}
use waydroid.CommandLine.{
  launch_first, init_action, handle, handle_entry, dispatch_action, dispatch_initialized, main_at,
  main, action_need_root, follow_log,
}
use waydroid.Host.{Host}
use waydroid.Initializer.{is_initialized}
use mathlib.Core.Path.{fun_ext, ap₂}

-- The functions that are for root alone.
unfoldable pub is_privileged : Leaf → Bool
is_privileged CommandLine.init_images = true
is_privileged CommandLine.upgrade = true
is_privileged CommandLine.container_start = true
is_privileged CommandLine.container_stop = true
is_privileged CommandLine.container_restart = true
is_privileged CommandLine.container_freeze = true
is_privileged CommandLine.container_unfreeze = true
is_privileged CommandLine.shell = true
is_privileged CommandLine.logcat = true
is_privileged CommandLine.arm_install = true
is_privileged CommandLine.arm_status = true
is_privileged CommandLine.arm_uninstall = true
is_privileged _ = false

-- A handler that does not call them, but behind its own guard.
is_open : Handler → Bool
is_open (other leaf) = not (is_privileged leaf)
is_open _ = true

all_open : List (Option String × Handler) → Bool
all_open [] = true
all_open ((_, h) ∷ rest) = is_open h && all_open rest

is_guarded : Entry → Bool
is_guarded e = e.need_root || all_open e.handlers

all_guarded : Dict String Entry → Bool
all_guarded [] = true
all_guarded ((_, e) ∷ rest) = is_guarded e && all_guarded rest

dispatch_guarded : all_guarded dispatch ≡ true
unfolding all_guarded dispatch is_guarded all_open is_open is_privileged
dispatch_guarded = refl

both : (a b : Bool) → (a && b) ≡ true → (a ≡ true) × (b ≡ true)
both true b h = (refl, h)
both false b h = cc

lookup-guarded :
    (k : String) (d : Dict String Entry) (e : Entry)
    → all_guarded d ≡ true
    → lookup k d ≡ some e
    → is_guarded e ≡ true
unfolding all_guarded lookup
lookup-guarded k [] e g h = cc
lookup-guarded k ((j, f) ∷ d) e g h =
    go (k == j) h (lookup-guarded k d e (both (is_guarded f) (all_guarded d) g).1)
  where
    go :
        (b : Bool)
        → (if b then some f else lookup k d) ≡ some e
        → (lookup k d ≡ some e → is_guarded e ≡ true)
        → is_guarded e ≡ true
    go true h later =
        (let same : f ≡ e = cc in
          ap is_guarded (sym same) ∙ (both (is_guarded f) (all_guarded d) g).0)
    go false h later = later h

handler-open :
    (name : Option String) (hs : List (Option String × Handler)) (h : Handler)
    → all_open hs ≡ true
    → handler_of name hs ≡ some h
    → is_open h ≡ true
unfolding all_open handler_of
handler-open name [] h g q = cc
handler-open name ((n, f) ∷ hs) h g q =
    go (same_sub name n) q (handler-open name hs h (both (is_open f) (all_open hs) g).1)
  where
    go :
        (b : Bool)
        → (if b then some f else handler_of name hs) ≡ some h
        → (handler_of name hs ≡ some h → is_open h ≡ true)
        → is_open h ≡ true
    go true q later =
        (let same : f ≡ h = cc in ap is_open (sym same) ∙ (both (is_open f) (all_open hs) g).0)
    go false q later = later q

-- A guard that a user does not pass hides what is behind it.
barred :
    {S : Type 0} (root : Bool) (e : Exc) (m k : M S NoneType)
    → root ≡ false
    → ((if root then pure tt else raise e) >> m) ≡ ((if root then pure tt else raise e) >> k)
unfolding ◌>>◌
barred true e m k h = cc
barred false e m k h = refl

module _ (H : Host) (P : Program H) (perform : Leaf → Arguments → M (Host.State H) NoneType) where
  open H use {State}

  -- The program with other functions behind its table.
  abbrev pub replaced : Program H
  replaced = record P { perform = perform }

  -- They do the same where they are not for root alone.
  abbrev pub AgreeForUsers : Type 0
  AgreeForUsers = (leaf : Leaf) → is_privileged leaf ≡ false → P.perform leaf ≡ perform leaf

  init_action-hides :
      (args : Arguments)
      → P.root ≡ false
      → AgreeForUsers
      → init_action H P args ≡ init_action H replaced args
  unfolding init_action action_need_root is_privileged
  init_action-hides args user agree = go args.client
    where
      go :
          (b : Bool)
          → (if b
              then P.perform CommandLine.remote_init_client args
              else action_need_root H P "init" >> P.perform CommandLine.init_images args)
            ≡ (if b
                then perform CommandLine.remote_init_client args
                else action_need_root H P "init" >> perform CommandLine.init_images args)
      go true = ap (λ f. f args) (agree CommandLine.remote_init_client refl)
      go false =
          barred P.root _ (P.perform CommandLine.init_images args)
            (perform CommandLine.init_images args) user

  launch_first-hides :
      (args : Arguments) → AgreeForUsers → launch_first H P args ≡ launch_first H replaced args
  unfolding launch_first is_privileged
  launch_first-hides args agree =
      ap₂
        (λ ask show. do
          initialized ← gets (is_initialized H)
          when (not initialized) (ask args)
          ready ← gets (is_initialized H)
          when ready (show args))
        (agree CommandLine.remote_init_client refl) (agree CommandLine.show_full_ui refl)

  handle-hides :
      (args : Arguments) (current : String) (h : Handler)
      → P.root ≡ false
      → AgreeForUsers
      → is_open h ≡ true
      → handle H P args current h ≡ handle H replaced args current h
  unfolding handle is_open follow_log CommandLine.log_path
  handle-hides args current init user agree o = init_action-hides args user agree
  handle-hides args current first_launch user agree o = launch_first-hides args agree
  handle-hides args current log user agree o = refl
  handle-hides args current (other leaf) user agree o =
      ap (λ f. f args) (agree leaf (closed (is_privileged leaf) o))
    where
      closed : (b : Bool) → not b ≡ true → b ≡ false
      closed true h = cc
      closed false h = refl

  found-hides :
      (args : Arguments) (current : String) (found : Option Handler)
      → P.root ≡ false
      → AgreeForUsers
      → ((h : Handler) → found ≡ some h → is_open h ≡ true)
      → (let m : M State NoneType = elim found [
        | none ↦ pure tt
        | some h ↦ handle H P args current h
      ] in
          m)
        ≡ (let m : M State NoneType = elim found [
          | none ↦ pure tt
          | some h ↦ handle H replaced args current h
        ] in
            m)
  found-hides args current none user agree opens = refl
  found-hides args current (some h) user agree opens =
      handle-hides args current h user agree (opens h refl)

  handle_entry-hides :
      (args : Arguments) (current : String) (e : Entry)
      → P.root ≡ false
      → AgreeForUsers
      → is_guarded e ≡ true
      → handle_entry H P args current e ≡ handle_entry H replaced args current e
  unfolding handle_entry action_need_root is_guarded
  handle_entry-hides args current e user agree g = go e.need_root g
    where
      act : Program H → M State NoneType
      act R = elim (handler_of args.subaction e.handlers) [
        | none ↦ pure tt
        | some h ↦ handle H R args current h
      ]

      go :
          (b : Bool)
          → (b || all_open e.handlers) ≡ true
          → (when b (action_need_root H P (action_of args)) >> act P)
            ≡ (when b (action_need_root H P (action_of args)) >> act replaced)
      go true g = barred P.root _ (act P) (act replaced) user
      go false g =
          ap (λ m. when false (action_need_root H P (action_of args)) >> m)
            (found-hides args current (handler_of args.subaction e.handlers) user agree
              (λ h. handler-open args.subaction e.handlers h g))

  dispatch_action-hides :
      (args : Arguments) (current : String)
      → P.root ≡ false
      → AgreeForUsers
      → dispatch_action H P args current ≡ dispatch_action H replaced args current
  unfolding dispatch_action
  dispatch_action-hides args current user agree =
      go (lookup (action_of args) dispatch)
        (λ e. lookup-guarded (action_of args) dispatch e dispatch_guarded)
    where
      go :
          (found : Option Entry)
          → ((e : Entry) → found ≡ some e → is_guarded e ≡ true)
          → (let m : M State NoneType = elim found [
            | none ↦ pure tt
            | some e ↦ handle_entry H P args current e
          ] in
              m)
            ≡ (let m : M State NoneType = elim found [
              | none ↦ pure tt
              | some e ↦ handle_entry H replaced args current e
            ] in
                m)
      go none guarded = refl
      go (some e) guarded = handle_entry-hides args current e user agree (guarded e refl)

  main_at-hides :
      (args : Arguments) (current : String)
      → P.root ≡ false
      → AgreeForUsers
      → main_at H P args current ≡ main_at H replaced args current
  unfolding main_at dispatch_initialized CommandLine.fail CommandLine.prepare
      CommandLine.needs_initialized
  main_at-hides args current user agree =
      ap
        (λ act.
          except_any
            (CommandLine.prepare H P current
              >> (gets (is_initialized H) >>= (λ initialized.
                  if not initialized && CommandLine.needs_initialized (action_of args)
                  then P.print "Waydroid is not initialized, run \"waydroid init\"" >> pure (some 0)
                  else act >> pure none)))
            (λ _. CommandLine.fail H P args current))
        (dispatch_action-hides args current user agree)

  -- For a user who is not root, every command does exactly what it would do if the functions
  -- that are for root alone (upgrade, the container's commands, shell, logcat, those of the ARM
  -- translation and the initialization itself) were any others.
  pub main-hides :
      (args : Arguments) → P.root ≡ false → AgreeForUsers → main H P args ≡ main H replaced args
  unfolding main CommandLine.fail CommandLine.chosen_log CommandLine.make_work
  main-hides args user agree =
      ap
        (λ act. except_any (CommandLine.make_work H P >> pure true) (λ _. pure false) >>= (λ made.
          if made
          then gets (CommandLine.chosen_log H P args) >>= act
          else CommandLine.fail H P args CommandLine.work_log))
        (fun_ext (λ current. main_at-hides args current user agree))
