-- ===== src/Initializer/Guards.antt =====
-- tools/actions/initializer.py: who may initialize over D-Bus, and how the worker ends.
use waydroid.Base.{
  ◌≡◌, ◌≢◌, refl, ap, ◌∙◌, sym, ◌⊎◌, inl, inr, String, Bool, true, false, none, some,
}
use waydroid.Base.{
  arith, Result, ok, raised, attribute_error, M, query, pure, ◌>>◌, ◌==◌, string_eq, nat_eq,
  if◌then◌else◌,
}
use waydroid.Base.Dict.{Dict, item}
use waydroid.Base.Refusal.{
  bind-eq-ok, then-eq-ok, query-eq-ok, if-eq-ok, bind-next, bind_raised, then_result-eq-ok,
}
use waydroid.Config.{section_of, load_channels}
use waydroid.Container.Daemon.{Daemon, lift}
use waydroid.Host.{Host, Config}
use waydroid.Initializer.Init.{
  Remote, init, init_prepared, halt, halt_own, own_session, current_status,
}
use waydroid.Initializer.Remote.{
  Desk, Server, interrupted, no_auth, same_item, request_of, is_allowed, ensure_polkit_auth,
  init_call, remote_init_server, remote_init_proc_entry, on_host, exit_code, signal_of,
}
use waydroid.Initializer.Setup.{Request, Prepared, setup_config}

-- Both channels that are asked for are those of the configuration.
abbrev pub AsksConfigured : Dict String String → Config → Type 0
AsksConfigured params channels_cfg =
    let channels = section_of "channels" channels_cfg in
    (system vendor : String) × (item "system_channel" params ≡ ok system)
    × (item "system_channel" channels ≡ ok system)
    × (item "vendor_channel" params ≡ ok vendor)
    × (item "vendor_channel" channels ≡ ok vendor)

same_item-true :
    (key : String) (params channels : Dict String String)
    → same_item key params channels ≡ ok true
    → (value : String) × (item key params ≡ ok value) × (item key channels ≡ ok value)
unfolding same_item
same_item-true key params channels h =
    let (asked, p, h1) = then_result-eq-ok (item key params) _ true h in
    let (configured, q, h2) = then_result-eq-ok (item key channels) _ true h1 in
    let same = equal asked configured h2 in (asked, p, q ∙ ap ok (sym same))
  where
    equal : (a b : String) → ◌≡◌ {A = Result Bool} (ok (a == b)) (ok true) → a ≡ b
    equal a b e = ground arith

no_auth-AsksConfigured :
    (params : Dict String String) (channels_cfg : Config)
    → no_auth params channels_cfg ≡ ok true
    → AsksConfigured params channels_cfg
unfolding no_auth
no_auth-AsksConfigured params channels_cfg h =
    let channels = section_of "channels" channels_cfg in
    let (same, p, h1) = then_result-eq-ok (same_item "system_channel" params channels) _ true h in
    go same p h1
  where
    go :
        (same : Bool)
        → same_item "system_channel" params (section_of "channels" channels_cfg) ≡ ok same
        → (if same
            then same_item "vendor_channel" params (section_of "channels" channels_cfg)
            else ok false)
          ≡ ok true
        → AsksConfigured params channels_cfg
    go true p q =
        let (system, a, b) = same_item-true "system_channel" params _ p in
        let (vendor, c, d) = same_item-true "vendor_channel" params _ q in
        (system, vendor, a, b, c, d)
    go false p q = cc

worker_failed : signal_of (exit_code (raised (attribute_error "session"))) ≡ interrupted
unfolding signal_of exit_code nat_eq
worker_failed = refl

module _ (H : Host) where
  open H use {State}

  -- Somebody whom polkit has let through, or who asks for what is configured.
  abbrev pub IsAuthorized : Desk H → String → Dict String String → Type 0
  IsAuthorized desk sender params =
      ((channels_cfg : Config) × (s t : State) × (load_channels H s ≡ (ok channels_cfg, t))
        × AsksConfigured params channels_cfg)
      ⊎ ((s t : State) × (ensure_polkit_auth H desk sender s ≡ (ok true, t)))

  is_allowed-IsAuthorized :
      (desk : Desk H) (sender : String) (params : Dict String String) (s t : State)
      → is_allowed H desk sender params s ≡ (ok true, t)
      → IsAuthorized desk sender params
  unfolding is_allowed
  is_allowed-IsAuthorized desk sender params s t h =
      let (channels_cfg, u, loaded, h1) = bind-eq-ok _ _ s t true h in
      let (free, v, asked, h2) = bind-eq-ok _ _ u t true h1 in
      let (same, e) = query-eq-ok (λ _. no_auth params channels_cfg) u v free asked in
      elim (if-eq-ok free (pure true) (ensure_polkit_auth H desk sender) v t true h2) [
        | inl (given, _) ↦ inl (
          channels_cfg,
          s,
          u,
          loaded,
          no_auth-AsksConfigured params channels_cfg (e ∙ ap ok given),
        )
        | inr (_, checked) ↦ inr (v, t, checked)
      ]

  on_host-eq-ok :
      {A : Type 0} (m : M State A) (d d' : Server H) (a : A)
      → on_host H m d ≡ (ok a, d')
      → m d.os ≡ (ok a, d'.os)
  unfolding on_host
  on_host-eq-ok m d d' a h =
      let r : (m d.os).0 ≡ ok a = ap (λ q. q.0) h in
      let t : (m d.os).1 ≡ d'.os = ap (λ q. q.1.os) h in cc

  started :
      (desk : Desk H) (params : Dict String String) (d d' : Server H)
      → remote_init_server H desk params d ≡ (ok tt, d')
      → (request : Request) × (request_of params ≡ ok request) × (d'.worker ≡ some request)
  unfolding remote_init_server
  started desk params d d' h =
      let (request, u, p, h1) = bind-eq-ok _ _ d d' tt h in
      let (same, e) = query-eq-ok (λ _. request_of params) d u request p in
      let (_, v, _, h2) = then-eq-ok _ _ u d' tt h1 in (request, e, sym (ap (λ q. q.1.worker) h2))

  -- Where a call of Init returns, polkit has let the caller through or both channels that the
  -- parameters name are the configured ones; and the worker that has been started last is one
  -- for the parameters.
  pub init_call-IsAuthorized :
      (desk : Desk H) (sender : String) (params : Dict String String) (d d' : Server H)
      → init_call H desk sender params d ≡ (ok tt, d')
      → IsAuthorized desk sender params
        × (request : Request) × (request_of params ≡ ok request)
        × (d'.worker ≡ some request)
  unfolding init_call
  init_call-IsAuthorized desk sender params d d' h =
      let (_, u, _, h1) = then-eq-ok _ _ d d' tt h in
      let (allowed, v, p, h2) =
        bind-eq-ok (on_host H (is_allowed H desk sender params)) _ u d' tt h1 in
      elim (if-eq-ok allowed (remote_init_server H desk params) _ v d' tt h2) [
        | inl (e, going) ↦
            let asked = on_host-eq-ok (is_allowed H desk sender params) u v allowed p in
            let (request, requested, kept) = started desk params v d' going in
            (
              is_allowed-IsAuthorized desk sender params u.os v.os
                  (asked ∙ ap (λ b. (ok b, v.os)) e),
              request,
              requested,
              kept,
            )
        | inr (e, refused) ↦ cc
      ]

  lift-ok :
      {A : Type 0} (m : M State A) (d : Daemon H) (a : A) (t : State)
      → m d.os ≡ (ok a, t)
      → lift m d ≡ (ok a, record d { os = t })
  unfolding lift
  lift-ok m d a t h = ap (λ q. (q.0, record d { os = q.1 })) h

  no_session :
      (d : Daemon H) → d.session ≡ none → own_session H d ≡ raised (attribute_error "session")
  unfolding own_session
  no_session d alone = rw alone refl

  halt-raises :
      (remote : Remote H) (seen : String) (d : Daemon H)
      → seen ≢ "STOPPED"
      → d.session ≡ none
      → halt H true remote seen d ≡ (raised (attribute_error "session"), d)
  unfolding halt halt_own
  halt-raises remote seen d running alone =
      let other : (seen == "STOPPED") ≡ false = ground arith in
      rw other (
        bind_raised (query (own_session H)) _ d d (attribute_error "session")
          (ap (λ r. (r, d)) (no_session d alone)))

  -- What is left of the process's own daemon when the images have been chosen.
  abbrev settled_daemon : Daemon H → Prepared → State → Daemon H
  settled_daemon d prepared t = record d { os = t; nodes = some prepared.nodes }

  init_prepared-raises :
      (remote : Remote H) (d : Daemon H) (prepared : Prepared) (t : State) (seen : String)
      → current_status H d.os ≡ (ok seen, t)
      → seen ≢ "STOPPED"
      → d.session ≡ none
      → init_prepared H true remote prepared d
        ≡ (raised (attribute_error "session"), settled_daemon d prepared t)
  unfolding init_prepared ◌>>◌
  init_prepared-raises remote d prepared t seen asked running alone =
      let d1 : Daemon H = record d { nodes = some prepared.nodes } in
      let d2 = settled_daemon d prepared t in
      bind-next (lift (current_status H)) _ d1 d2 seen (lift-ok (current_status H) d1 seen t asked)
      ∙ bind_raised (halt H true remote seen) _ d2 d2 (attribute_error "session")
          (halt-raises remote seen d2 running alone)

  init-raises :
      (remote : Remote H) (request : Request) (d : Daemon H) (prepared : Prepared) (s t : State)
      (seen : String)
      → setup_config H request d.os ≡ (ok (some prepared), s)
      → current_status H s ≡ (ok seen, t)
      → seen ≢ "STOPPED"
      → d.session ≡ none
      → init H true remote request d
        ≡ (raised (attribute_error "session"), settled_daemon d prepared t)
  unfolding init
  init-raises remote request d prepared s t seen settled asked running alone =
      bind-next (lift (setup_config H request)) _ d (record d { os = s }) (some prepared)
        (lift-ok (setup_config H request) d (some prepared) s settled)
      ∙ init_prepared-raises remote (record d { os = s }) prepared t seen asked running alone

  -- Where the container is not stopped, a worker for a request that setup_config accepts ends
  -- before the images are fetched or the container is stopped, in the state in which it saw the
  -- container run, and the user is told of an interruption.
  pub remote_init_proc_entry-interrupted :
      (remote : Remote H) (request : Request) (d : Daemon H) (prepared : Prepared) (s t : State)
      (seen : String)
      → setup_config H request d.os ≡ (ok (some prepared), s)
      → current_status H s ≡ (ok seen, t)
      → seen ≢ "STOPPED"
      → ((remote_init_proc_entry H remote request d).0 ≡ interrupted)
        × ((remote_init_proc_entry H remote request d).1.os ≡ t)
  unfolding remote_init_proc_entry
  remote_init_proc_entry-interrupted remote request d prepared s t seen settled asked running =
      let alone : Daemon H = record d { session = none } in
      let e = init-raises remote request alone prepared s t seen settled asked running refl in
      ((ap (λ q. signal_of (exit_code q.0)) e ∙ worker_failed), ap (λ q. q.1.os) e)
