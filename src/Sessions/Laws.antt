-- ===== src/Sessions/Laws.antt =====
-- tools/actions/session_manager.py: the session that is handed to the daemon.
use waydroid.Apps.{is_caught}
use waydroid.Base.{
  ℕ, ◌≡◌, ◌≢◌, refl, ap, ◌∙◌, inl, inr, String, Bool, true, false, Option, none, some,
}
use waydroid.Base.{
  Result, ok, raised, M, NoneType, pure, query, try_except, or_else_do, then_do, ◌>>=◌, ◌>>◌,
  string_eq, if◌then◌else◌,
}
use waydroid.Base.Dict
use waydroid.Base.Dict.{item}
use waydroid.Base.Refusal.{bind-eq-ok, then-eq-ok, if-eq-ok}
use waydroid.Base.Text.{str}
use waydroid.Host.{Host}
use waydroid.Images.Rootfs.{Session}
use waydroid.Sessions.{
  Desktop, text_of, Ending, served, already_running, exited, get_session_defaults, display_of,
  session_of, socket_path, serve, start_at, start_with_socket, start, ask_container, log_reason,
  keep, density, make_data,
}

module _ (H : Host) (D : Desktop H) where
  open H use {State}

  -- What the daemon looks up in a session that has been made in a state.
  session_of-values :
      (s : State) (wayland_display dpi : String) (background : Bool)
      → let session = session_of (get_session_defaults H D s) wayland_display dpi background in
        (item "user_id" session ≡ ok (str (D.uid s)))
        × (item "pid" session ≡ ok (str (D.pid s)))
        × (item "wayland_display" session ≡ ok wayland_display)
        × (item "background_start" session ≡ ok (if background then "true" else "false"))
  unfolding session_of get_session_defaults item Dict.insert Dict.lookup string_eq
  session_of-values s wayland_display dpi background = (refl, refl, refl, refl)

  -- The container was started with the session, which names the user and the process of the program
  -- itself, as the daemon demands, and the display that the environment gives; the compositor's
  -- socket was there.
  abbrev pub IsOwn : State → Bool → Session → Type 0
  IsOwn s background session =
      (item "user_id" session ≡ ok (str (D.uid s)))
      × (item "pid" session ≡ ok (str (D.pid s)))
      × (item "background_start" session ≡ ok (if background then "true" else "false"))
      × (item "wayland_display" session ≡ ok (display_of H D s))
      × (path : String) × (u v w : State) × (socket_path (display_of H D s)
            (text_of (D.environ "XDG_RUNTIME_DIR" s))
          ≡ some path)
      × (H.exists path u ≡ true)
      × (D.start_container session v ≡ (ok tt, w))

  exited_apart :
      (code : ℕ) (u w : State)
      → ◌≢◌ {A = Result Ending × State} (ok (exited code), u) (ok served, w)
  exited_apart code u w = λ h. cc

  running_apart :
      (u w : State) → ◌≢◌ {A = Result Ending × State} (ok already_running, u) (ok served, w)
  running_apart u w = λ h. cc

  ask_container-served :
      (session : Session) (v w : State)
      → ask_container H D session v ≡ (ok served, w)
      → D.start_container session v ≡ (ok tt, w)
  unfolding ask_container try_except ◌>>◌
  ask_container-served session v w h = go (D.start_container session v) refl h
    where
      go :
          (p : Result NoneType × State)
          → D.start_container session v ≡ p
          → or_else_do
              (then_do p (λ _. pure served))
              (λ e. if is_caught false e then some (log_reason H D e >> pure (exited 0)) else none)
            ≡ (ok served, w)
          → D.start_container session v ≡ (ok tt, w)
      go (ok _, u) e q = cc
      go (raised x, u) e q = refused (is_caught false x) q
        where
          refused :
              (b : Bool)
              → (let r : Result Ending × State =
                    elim (if b then some (log_reason H D x >> pure (exited 0)) else none) [
                      | none ↦ (raised x, u)
                      | some k ↦ k u
                    ] in
                  r)
                ≡ (ok served, w)
              → D.start_container session v ≡ (ok tt, w)
          refused true q =
              let (_, u', _, q') = then-eq-ok (log_reason H D x) (pure (exited 0)) u w served q in
              absurd (exited_apart 0 u' w q')
          refused false q = cc

  serve-served :
      (session : Session) (v t : State)
      → serve H D session v ≡ (ok served, t)
      → (w : State) × (D.start_container session v ≡ (ok tt, w))
  unfolding serve keep
  serve-served session v t h =
      let (ending, w, p, h1) =
        bind-eq-ok (ask_container H D session) (keep H D session) v t served h in
      (w, ask_container-served session v w (p ∙ ap (λ e. (ok e, w)) (went ending w h1)))
    where
      -- `keep` serves only what it is told has been started.
      went :
          (ending : Ending) (w : State)
          → keep H D session ending w ≡ (ok served, t)
          → ending ≡ served
      went served w q = refl
      went already_running w q = absurd (running_apart w t q)
      went (exited code) w q = absurd (exited_apart code w t q)

  -- Where `start` serves a session, the container was started with one that is its own.
  start_at-served :
      (s : State) (wayland_display : String) (background : Bool) (u t : State)
      → start_at H D (get_session_defaults H D s) wayland_display background u ≡ (ok served, t)
      → (dpi : String) × (v w : State) × (D.start_container
            (session_of (get_session_defaults H D s) wayland_display dpi background)
            v
          ≡ (ok tt, w))
  unfolding start_at
  start_at-served s wayland_display background u t h =
      let defaults = get_session_defaults H D s in
      let (_, u1, p1, h1) = then-eq-ok (make_data H D defaults) _ u t served h in
      let (dpi, u2, p2, h2) = bind-eq-ok (query (density H D)) _ u1 t served h1 in
      let (w, p) = serve-served (session_of defaults wayland_display dpi background) u2 t h2 in
      (dpi, u2, w, p)

  with_socket-served :
      (s : State) (wayland_display : String) (background : Bool) (socket : Option String)
      (u t : State)
      → start_with_socket H D (get_session_defaults H D s) wayland_display background socket u
        ≡ (ok served, t)
      → (path : String) × (u' : State) × (socket ≡ some path)
        × (H.exists path u' ≡ true)
        × (start_at H D (get_session_defaults H D s) wayland_display background u' ≡ (ok served, t))
  unfolding start_with_socket ◌>>=◌
  with_socket-served s wayland_display background none u t h = absurd (exited_apart 1 u t h)
  with_socket-served s wayland_display background (some path) u t h =
      elim (if-eq-ok (H.exists path u)
        (start_at H D (get_session_defaults H D s) wayland_display background) (pure (exited 1)) u t
        served h) [
          | inl (there, h) ↦ (path, u, refl, there, h)
          | inr (_, h) ↦ absurd (exited_apart 1 u t h)
        ]

  -- Where start serves a session, the container was started with a session that is the
  -- process's own: it names the user and the process that run the program and the display that
  -- the environment gives, and the socket of that display was there.
  pub start-IsOwn :
      (unlocked_cb : M State NoneType) (background : Bool) (s t : State)
      → start H D unlocked_cb background s ≡ (ok served, t)
      → (u : State) × (session : Session) × IsOwn u background session
  unfolding start get_session_defaults item Dict.lookup string_eq start_with_socket ◌>>=◌
  start-IsOwn unlocked_cb background s t h =
      let (claimed, u, p, h1) = bind-eq-ok D.claim_name _ s t served h in
      elim (if-eq-ok claimed _ _ u t served h1) [
        | inl (_, h) ↦
            (let (path, v, found, there, h2) =
                with_socket-served u (display_of H D u) background
                  (socket_path (display_of H D u) (text_of (D.environ "XDG_RUNTIME_DIR" u))) u t
                  h in
              let (dpi, v', w, started) = start_at-served u (display_of H D u) background v t h2 in
              let session =
                session_of (get_session_defaults H D u) (display_of H D u) dpi background in
              let (uid, pid, display, bg) = session_of-values u (display_of H D u) dpi background in
              (u, session, (uid, pid, bg, display, path, v, v', w, found, there, started)))
        | inr (_, h) ↦
            (let (_, w, _, h2) = then-eq-ok unlocked_cb (pure already_running) u t served h in
              absurd (running_apart w t h2))
      ]
