-- ===== src/Container/Freezing.antt =====
-- tools/actions/container_manager.py: `freeze` and `unfreeze`, and what a return from them says.
use waydroid.Base.{◌≡◌, ap, ◌∙◌, sym, ℕ, zero, suc, String, Result, ok, raised, Exc, M}
use waydroid.Base.{NoneType, pure, ◌>>=◌, ◌>>◌, ◌==◌, string_eq, if◌then◌else◌, arith, then_do}
use waydroid.Base.Refusal.{then-eq-ok}
use waydroid.Container.Steps.{poll, wait_for_status, freeze, unfreeze}
use waydroid.Container.Waiting.{status-returns, poll-same, poll-last, poll-later}
use waydroid.Host.{Host}
use waydroid.Lxc.Control
use waydroid.Lxc.Control.{status}

module _ (H : Host) where
  open H use {State}

  -- The last thing that happened is that the status was seen.
  abbrev pub IsLastSeen : String → State → Type 0
  IsLastSeen wanted t = (u : State) × (status H u ≡ (ok wanted, t))

  module _ (wanted : String) (failure : Exc) where
    same_end :
        (left : ℕ) (s t u : State) (seen : String)
        → status H s ≡ (ok seen, u)
        → seen ≡ wanted
        → poll H wanted failure left s ≡ (ok tt, t)
        → status H s ≡ (ok wanted, t)
    same_end left s t u seen p same h =
        let e : u ≡ t = ap (λ r. r.1) (sym (poll-same H wanted failure left s u seen p same) ∙ h) in
        cc

    poll-ends :
        (left : ℕ) (s t : State) → poll H wanted failure left s ≡ (ok tt, t) → IsLastSeen wanted t
    poll-ends zero s t h =
        let (seen, u, p) = status-returns H s in
        elim (string_eq.dec seen wanted) [
          | yes same ↦ (s, same_end zero s t u seen p same h)
          | no other ↦ absurd (refused (sym (poll-last H wanted failure s u seen p other) ∙ h))
        ]
      where
        refused : {u : State} → Path (Result NoneType × State) (raised failure, u) (ok tt, t) → ⊥
        refused e = cc
    poll-ends (suc left) s t h =
        let (seen, u, p) = status-returns H s in
        elim (string_eq.dec seen wanted) [
          | yes same ↦ (s, same_end (suc left) s t u seen p same h)
          | no other ↦
              poll-ends left (H.sleep u) t
                (sym (poll-later H wanted failure left s u seen p other) ∙ h)
        ]

  -- `if status == wanted: act; wait_for_status(target)`, after the status was seen.
  acted :
      (act : M State NoneType) (target : String) (s t : State)
      → (act >> wait_for_status H target 30) s ≡ (ok tt, t)
      → IsLastSeen target t
  unfolding wait_for_status
  acted act target s t h =
      let (_, u, _, q) = then-eq-ok act (wait_for_status H target 30) s t tt h in
      poll-ends target _ 30 u t q

  -- The status decides whether the call acts at all.
  when_found :
      (found : String) (k : M State NoneType) (s t : State)
      → (status H s).0 ≡ ok found
      → (status H >>= (λ seen. if seen == found then k else pure tt)) s ≡ (ok tt, t)
      → k (status H s).1 ≡ (ok tt, t)
  unfolding ◌>>=◌
  when_found found k s t seen_found h = go (status H s) seen_found h
    where
      go :
          (p : Result String × State)
          → p.0 ≡ ok found
          → then_do p (λ seen. if seen == found then k else pure tt) ≡ (ok tt, t)
          → k p.1 ≡ (ok tt, t)
      go (ok seen, u) q h = elim (string_eq.dec seen found) [
        | yes same ↦ ground arith
        | no other ↦ absurd (other (let e : seen ≡ found = cc in e))
      ]
      go (raised e, u) q h = cc

  -- A freeze that finds the container RUNNING and returns ends with a poll that sees it FROZEN.
  pub freeze_frozen :
      (s t : State)
      → (status H s).0 ≡ ok "RUNNING"
      → freeze H s ≡ (ok tt, t)
      → IsLastSeen "FROZEN" t
  unfolding freeze
  freeze_frozen s t running h =
      acted (Control.freeze H) "FROZEN" (status H s).1 t (when_found "RUNNING" _ s t running h)

  pub unfreeze_running :
      (s t : State)
      → (status H s).0 ≡ ok "FROZEN"
      → unfreeze H s ≡ (ok tt, t)
      → IsLastSeen "RUNNING" t
  unfolding unfreeze
  unfreeze_running s t frozen h =
      acted (Control.unfreeze H) "RUNNING" (status H s).1 t (when_found "FROZEN" _ s t frozen h)
