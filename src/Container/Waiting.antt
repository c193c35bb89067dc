-- ===== src/Container/Waiting.antt =====
-- tools/actions/container_manager.py: waiting for a status of the container, and freezing and
-- thawing it.
use waydroid.Base.{◌≡◌, ◌≢◌, ◌↔◌, refl, ap, ◌∙◌, sym, ℕ, zero, suc, ◌≤◌, String, not}
use waydroid.Base.{some, Result, ok, raised, Exc, M, NoneType, pure, raise, when, ◌>>=◌, ◌>>◌}
use waydroid.Base.{
  ◌==◌, string_eq, arith, then_do, or_else_do, except_any, try_except, if◌then◌else◌, modify,
}
use waydroid.Container.Steps.{poll, wait_for_status}
use waydroid.Host.{Host}
use waydroid.Lxc.Control.{status}
use waydroid.Base.Text.{strip}

module _ (H : Host) where
  open H use {State}

  -- Asking for the status never raises.
  pub status-returns : (s : State) → (seen : String) × (t : State) × (status H s ≡ (ok seen, t))
  unfolding status except_any try_except ◌>>=◌
  status-returns s = go _
    where
      go :
          (p : Result String × State)
          → (seen : String) × (t : State) × (or_else_do
                (then_do p (λ out. pure (strip out)))
                (λ _. some (pure "STOPPED"))
              ≡ (ok seen, t))
      go (ok out, t) = (strip out, t, refl)
      go (raised e, t) = ("STOPPED", t, refl)

  -- The host's state when the status is asked for after `k` seconds of waiting.
  unfoldable pub after_polls : ℕ → State → State
  after_polls zero s = s
  after_polls (suc k) s = after_polls k (H.sleep (status H s).1)

  -- The status is the wanted one at one of the polls.
  abbrev pub IsSeen : String → ℕ → State → Type 0
  IsSeen wanted timeout s = (k : ℕ) × (k ≤ timeout) × ((status H (after_polls k s)).0 ≡ ok wanted)

  poll_now : String → Exc → ℕ → String → M State NoneType
  poll_now wanted failure zero seen = when (not (seen == wanted)) (raise failure)
  poll_now wanted failure (suc left) seen =
      if seen == wanted then pure tt else (modify H.sleep >> poll H wanted failure left)

  poll-step :
      (wanted : String) (failure : Exc) (left : ℕ) (s t : State) (seen : String)
      → status H s ≡ (ok seen, t)
      → poll H wanted failure left s ≡ poll_now wanted failure left seen t
  unfolding poll poll_now ◌>>=◌
  poll-step wanted failure zero s t seen p = ap (λ q. then_do q (poll_now wanted failure zero)) p
  poll-step wanted failure (suc left) s t seen p =
      ap (λ q. then_do q (poll_now wanted failure (suc left))) p

  module _ (wanted : String) (failure : Exc) where
    now-same :
        (left : ℕ) (seen : String) (t : State)
        → seen ≡ wanted
        → poll_now wanted failure left seen t ≡ (ok tt, t)
    unfolding poll_now
    now-same zero seen t same = ground arith
    now-same (suc left) seen t same = ground arith

    now-last :
        (seen : String) (t : State)
        → seen ≢ wanted
        → poll_now wanted failure zero seen t ≡ (raised failure, t)
    unfolding poll_now
    now-last seen t other = ground arith

    now-later :
        (left : ℕ) (seen : String) (t : State)
        → seen ≢ wanted
        → poll_now wanted failure (suc left) seen t ≡ poll H wanted failure left (H.sleep t)
    unfolding poll_now ◌>>◌
    now-later left seen t other = ground arith

    -- The status at the first poll, and at the later ones.
    seen-first :
        (s t : State) (seen : String)
        → status H s ≡ (ok seen, t)
        → (status H (after_polls zero s)).0 ≡ ok wanted
        → seen ≡ wanted
    unfolding after_polls
    seen-first s t seen p q = cc

    pub poll-same :
        (left : ℕ) (s t : State) (seen : String)
        → status H s ≡ (ok seen, t)
        → seen ≡ wanted
        → poll H wanted failure left s ≡ (ok tt, t)
    poll-same left s t seen p same =
        poll-step wanted failure left s t seen p ∙ now-same left seen t same

    pub poll-last :
        (s t : State) (seen : String)
        → status H s ≡ (ok seen, t)
        → seen ≢ wanted
        → poll H wanted failure zero s ≡ (raised failure, t)
    poll-last s t seen p other = poll-step wanted failure zero s t seen p ∙ now-last seen t other

    pub poll-later :
        (left : ℕ) (s t : State) (seen : String)
        → status H s ≡ (ok seen, t)
        → seen ≢ wanted
        → poll H wanted failure (suc left) s ≡ poll H wanted failure left (H.sleep t)
    poll-later left s t seen p other =
        poll-step wanted failure (suc left) s t seen p ∙ now-later left seen t other

    poll-returns :
        (left : ℕ) (s : State) → IsSeen wanted left s → (poll H wanted failure left s).0 ≡ ok tt
    unfolding after_polls
    poll-returns left s (zero, le, q) =
        let (seen, t, p) = status-returns s in
        ap (λ r. r.0) (poll-same left s t seen p (seen-first s t seen p q))
    poll-returns zero s (suc k, le, q) = absurd (omega arith)
    poll-returns (suc left) s (suc k, le, q) =
        let (seen, t, p) = status-returns s in
        let later : IsSeen wanted left (H.sleep t) =
          (k, omega arith, ap (λ r. (status H (after_polls k (H.sleep r.1))).0) (sym p) ∙ q) in
        elim (string_eq.dec seen wanted) [
          | yes same ↦ ap (λ r. r.0) (poll-same (suc left) s t seen p same)
          | no other ↦
              ap (λ r. r.0) (poll-later left s t seen p other) ∙ poll-returns left (H.sleep t) later
        ]

    poll-sees :
        (left : ℕ) (s : State) → (poll H wanted failure left s).0 ≡ ok tt → IsSeen wanted left s
    unfolding after_polls
    poll-sees zero s h =
        let (seen, t, p) = status-returns s in
        elim (string_eq.dec seen wanted) [
          | yes same ↦ (zero, omega arith, ap (λ r. r.0) p ∙ ap ok same)
          | no other ↦ absurd (refused (sym (ap (λ r. r.0) (poll-last s t seen p other)) ∙ h))
        ]
      where
        refused : (raised failure ≡ ok tt) → ⊥
        refused e = cc
    poll-sees (suc left) s h =
        let (seen, t, p) = status-returns s in
        elim (string_eq.dec seen wanted) [
          | yes same ↦ (zero, omega arith, ap (λ r. r.0) p ∙ ap ok same)
          | no other ↦
              let (k, le, q) =
                poll-sees left (H.sleep t)
                  (sym (ap (λ r. r.0) (poll-later left s t seen p other)) ∙ h) in
              (suc k, omega arith, ap (λ r. (status H (after_polls k (H.sleep r.1))).0) p ∙ q)
        ]

  -- For every status, timeout and state, wait_for_status returns exactly when one of the first
  -- timeout + 1 polls, a sleep apart, sees the status.
  pub wait_for_status_iff :
      (wanted : String) (timeout : ℕ) (s : State)
      → ((wait_for_status H wanted timeout s).0 ≡ ok tt) ↔ IsSeen wanted timeout s
  unfolding wait_for_status
  wait_for_status_iff wanted timeout s =
      (poll-sees wanted _ timeout s, poll-returns wanted _ timeout s)
