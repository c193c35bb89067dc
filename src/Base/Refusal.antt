-- ===== src/Base/Refusal.antt =====
-- Rules for calls that raise and change nothing, and for chains that return.
use mathlib.Core.Path.{◌≡◌, refl, ◌∙◌, ap}
use mathlib.Core.Logic.{◌≢◌, ◌⊎◌, inl, inr}
use waydroid.Base.Equality.{if◌then◌else◌}
use mathlib.Core.Bool.{Bool, true, false}
use waydroid.Base.Effect.{Exc, M, Result, ok, raised, raise, when, NoneType, Refuses, query}
use waydroid.Base.Effect.{then_do, then_result, ◌>>=◌, ◌>>◌}

module _ {S A B : Type 0} where
  pub Refuses-bind : (m : M S A) (f : A → M S B) (s : S) → Refuses m s → Refuses (m >>= f) s
  unfolding ◌>>=◌
  Refuses-bind m f s (e, p) = (e, ap (λ q. then_do q f) p)

  pub Refuses-next :
      (m : M S A) (f : A → M S B) (s : S) (a : A)
      → m s ≡ (ok a, s)
      → Refuses (f a) s
      → Refuses (m >>= f) s
  unfolding ◌>>=◌
  Refuses-next m f s a p (e, q) = (e, ap (λ q. then_do q f) p ∙ q)

  pub Refuses-then : (m : M S A) (k : M S B) (s : S) → Refuses m s → Refuses (m >> k) s
  unfolding ◌>>◌
  Refuses-then m k s (e, p) = (e, ap (λ q. then_do q (λ _. k)) p)

  pub Refuses-after :
      (m : M S A) (k : M S B) (s : S) (a : A) → m s ≡ (ok a, s) → Refuses k s → Refuses (m >> k) s
  unfolding ◌>>◌
  Refuses-after m k s a p (e, q) = (e, ap (λ q. then_do q (λ _. k)) p ∙ q)

  -- A chain whose first part returns goes on with its result.
  pub bind-next :
      (m : M S A) (f : A → M S B) (s t : S) (a : A) → m s ≡ (ok a, t) → (m >>= f) s ≡ f a t
  unfolding ◌>>=◌
  bind-next m f s t a p = ap (λ q. then_do q f) p

  pub then-next : (m : M S A) (k : M S B) (s t : S) (a : A) → m s ≡ (ok a, t) → (m >> k) s ≡ k t
  unfolding ◌>>◌
  then-next m k s t a p = ap (λ q. then_do q (λ _. k)) p

  -- A chain that has returned: each part has.
  pub bind-eq-ok :
      (m : M S A) (f : A → M S B) (s t : S) (b : B)
      → (m >>= f) s ≡ (ok b, t)
      → (a : A) × (u : S) × (m s ≡ (ok a, u)) × (f a u ≡ (ok b, t))
  unfolding ◌>>=◌
  bind-eq-ok m f s t b h = go (m s) refl h
    where
      go :
          (p : Result A × S)
          → m s ≡ p
          → then_do p f ≡ (ok b, t)
          → (a : A) × (u : S) × (m s ≡ (ok a, u)) × (f a u ≡ (ok b, t))
      go (ok a, u) e h = (a, u, e, h)
      go (raised x, u) e h = cc

  pub then-eq-ok :
      (m : M S A) (k : M S B) (s t : S) (b : B)
      → (m >> k) s ≡ (ok b, t)
      → (a : A) × (u : S) × (m s ≡ (ok a, u)) × (k u ≡ (ok b, t))
  unfolding ◌>>◌
  then-eq-ok m k s t b h = go (m s) refl h
    where
      go :
          (p : Result A × S)
          → m s ≡ p
          → then_do p (λ _. k) ≡ (ok b, t)
          → (a : A) × (u : S) × (m s ≡ (ok a, u)) × (k u ≡ (ok b, t))
      go (ok a, u) e h = (a, u, e, h)
      go (raised x, u) e h = cc

module _ {S : Type 0} where
  pub Refuses-when : (b : Bool) (e : Exc) (s : S) → b ≡ true → Refuses (when b (raise e)) s
  Refuses-when true e s h = (e, refl)
  Refuses-when false e s h = cc

  pub when_passes : (b : Bool) (m : M S NoneType) (s : S) → b ≡ false → when b m s ≡ (ok tt, s)
  when_passes true m s h = cc
  when_passes false m s h = refl

-- A call that reads the state, or is guarded, before a call that refuses.
module _ {S A : Type 0} where
  pub Refuses-query :
      {B : Type 0} (q : S → Result A) (f : A → M S B) (s : S)
      → ((a : A) → Refuses (f a) s)
      → Refuses (query q >>= f) s
  unfolding ◌>>=◌
  Refuses-query {B} q f s h = go (q s)
    where
      go : (r : Result A) → (e : Exc) × (then_do (r, s) f ≡ (raised e, s))
      go (ok a) = h a
      go (raised e) = (e, refl)

  pub Refuses-guard :
      (b : Bool) (e : Exc) (k : M S A) (s : S) → Refuses k s → Refuses (when b (raise e) >> k) s
  unfolding ◌>>◌
  Refuses-guard true e k s h = (e, refl)
  Refuses-guard false e k s h = h

  pub Refuses-at_guard :
      (b : Bool) (e : Exc) (k : M S A) (s : S) → b ≡ true → Refuses (when b (raise e) >> k) s
  unfolding ◌>>◌
  Refuses-at_guard true e k s h = (e, refl)
  Refuses-at_guard false e k s h = cc

-- A guarded call that has returned.
pub guard-eq-ok :
    {S A : Type 0} (b : Bool) (e : Exc) (k : M S A) (s t : S) (a : A)
    → (when b (raise e) >> k) s ≡ (ok a, t)
    → (b ≡ false) × (k s ≡ (ok a, t))
unfolding ◌>>◌
guard-eq-ok true e k s t a h = cc
guard-eq-ok false e k s t a h = (refl, h)

-- A chain of results that has succeeded.
pub then_result-eq-ok :
    {A B : Type 0} (r : Result A) (f : A → Result B) (b : B)
    → then_result r f ≡ ok b
    → (a : A) × (r ≡ ok a) × (f a ≡ ok b)
then_result-eq-ok (ok a) f b h = (a, refl, h)
then_result-eq-ok (raised e) f b h = cc

-- A query that has returned: the state is the old one, and the answer holds in it.
pub query-eq-ok :
    {S A : Type 0} (q : S → Result A) (s t : S) (a : A)
    → query q s ≡ (ok a, t)
    → (s ≡ t) × (q t ≡ ok a)
query-eq-ok {S} q s t a h = let same : s ≡ t = cc in let e : q s ≡ ok a = cc in (same, rw same at e)

-- A guard whose call never returns.
pub when-eq-ok :
    {S : Type 0} (b : Bool) (m : M S NoneType) (s t : S)
    → m s ≢ (ok tt, t)
    → when b m s ≡ (ok tt, t)
    → (b ≡ false) × (s ≡ t)
when-eq-ok true m s t never h = absurd (never h)
when-eq-ok false m s t never h = (refl, cc)

-- A conditional call that has returned: the branch that was taken has.
pub if-eq-ok :
    {S A : Type 0} (b : Bool) (m k : M S A) (s t : S) (a : A)
    → (if b then m else k) s ≡ (ok a, t)
    → ((b ≡ true) × (m s ≡ (ok a, t))) ⊎ ((b ≡ false) × (k s ≡ (ok a, t)))
if-eq-ok true m k s t a h = inl (refl, h)
if-eq-ok false m k s t a h = inr (refl, h)

-- A chain whose first part raises.
pub bind_raised :
    {S A B : Type 0} (m : M S A) (f : A → M S B) (s t : S) (e : Exc)
    → m s ≡ (raised e, t)
    → (m >>= f) s ≡ (raised e, t)
unfolding ◌>>=◌
bind_raised m f s t e p = ap (λ q. then_do q f) p
