-- ===== src/Apps/Laws.antt =====
-- tools/actions/app_manager.py and prop.py: what becomes of a frozen container.
use mathlib.Core.Path.{fun_ext}
use waydroid.Apps.{Services, thawed, in_session, is_caught}
use waydroid.Base.{
  ◌≡◌, ap, sym, ◌∙◌, Bool, none, some, Exc, raised, M, NoneType, pure, query, then_do,
}
use waydroid.Base.{try_except, ◌>>=◌, ◌>>◌, ◌==◌, string_eq, if◌then◌else◌}
use waydroid.Base.Dict.{item}
use waydroid.Host.{Host}

-- A part of a command that raises wherever it is started.
abbrev pub AlwaysRaises : {S : Type 0} → M S NoneType → Type 0
AlwaysRaises {S} body = (s : S) → (e : Exc) × (t : S) × (body s ≡ (raised e, t))

never-then : {S : Type 0} (body k l : M S NoneType) → AlwaysRaises body → (body >> k) ≡ (body >> l)
unfolding ◌>>◌
never-then body k l never = fun_ext (λ s. at (never s))
  where
    at :
        {s : _}
        → (e : Exc) × (t : _) × (body s ≡ (raised e, t))
        → then_do (body s) (λ _. k) ≡ then_do (body s) (λ _. l)
    at (e, t, p) = ap (λ q. then_do q (λ _. k)) p ∙ sym (ap (λ q. then_do q (λ _. l)) p)

module _ (H : Host) (V : Services H) where
  open H use {State}

  thawed-awake :
      (freeze : M State NoneType) (body : M State NoneType)
      → AlwaysRaises body
      → thawed H V body ≡ thawed H (record V { freeze = freeze }) body
  unfolding thawed
  thawed-awake freeze body never =
      ap
        (λ inner. do
          V.session_service
          V.container_service
          session ← V.get_session
          state ← query (λ _. item "state" session)
          if state == "FROZEN" then V.unfreeze >> inner else body)
        (never-then body V.freeze freeze never)

  -- Where a command's own part raises wherever it is started, the command does exactly what it
  -- would do if the container's Freeze did anything else: a container that it has thawed is not
  -- frozen again.
  pub in_session-awake :
      (with_keys : Bool) (freeze body : M State NoneType)
      → AlwaysRaises body
      → in_session H V with_keys body ≡ in_session H (record V { freeze = freeze }) with_keys body
  unfolding in_session
  in_session-awake with_keys freeze body never =
      ap (λ m. try_except m (λ e. if is_caught with_keys e then some (pure tt) else none))
        (thawed-awake freeze body never)
