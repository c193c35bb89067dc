-- ===== src/Examples/Owners.antt =====
-- Two users whose processes call the daemon, one of whom starts a session.
use waydroid.Base.{◌≡◌, ◌⊎◌, inl, inr, refl, String, true, List, [], ◌∷◌}
use waydroid.Container.Bus.{Caller, Call, start_call, stop_call, get_session_call, serve}
use waydroid.Container.Ownership.{IsOwnedBy, AllUsers, serve-IsOwnedBy}
use waydroid.Container.Refinement.{serve-Steps}
use waydroid.Container.Specification.{Steps, callers, holder_of}
use waydroid.Examples.Daemon.{idle, session, owner, stranger}
use waydroid.Examples.Everything.{everything}
use waydroid.Host.Machine.{machine}

abbrev IsResident : String → Type 0
IsResident u = (u ≡ "1000") ⊎ (u ≡ "1001")

abbrev calls_of_two : List (Call × Caller)
calls_of_two =
    (stop_call true, stranger)
    ∷ (start_call session, owner)
    ∷ (get_session_call, owner)
    ∷ (start_call session, stranger)
    ∷ []

users_of_two : AllUsers machine IsResident calls_of_two
unfolding everything
users_of_two = (refl, inr refl, (refl, inl refl, (refl, inl refl, (refl, inr refl, tt))))

serve-IsOwnedBy_example : IsOwnedBy IsResident (serve machine calls_of_two idle).session
serve-IsOwnedBy_example = serve-IsOwnedBy machine IsResident calls_of_two idle tt users_of_two

serve-Steps_example :
    Steps
      (callers calls_of_two)
      (holder_of idle.session)
      (holder_of (serve machine calls_of_two idle).session)
serve-Steps_example = serve-Steps machine calls_of_two idle
