-- ===== src/Base/Preserving.antt =====
-- Rules for what a call leaves unchanged, and for what every run of it leaves true.
use mathlib.Core.Path.{◌≡◌, refl, ◌∙◌}
use mathlib.Core.Bool.{Bool, true, false, cond}
use mathlib.Core.Option.{Option, none, some}
use mathlib.Core.List.{List, [], ◌∷◌}
use waydroid.Base.Effect.{pure, except_any, Exc, M, Result, ok, raised, when, NoneType, for_each}
use waydroid.Base.Effect.{then_do, or_else_do, try_except, ◌>>=◌, ◌>>◌}

-- A call that changes nothing of what `f` reads of the state, also when it raises.
abbrev pub Keeps : {S A B : Type 0} → (S → B) → M S A → Type 0
Keeps {S} f m = (s : S) → f (m s).1 ≡ f s

module _ {S B : Type 0} (f : S → B) where
  then_do-Keeps :
      {A C : Type 0} (s : S) (p : Result A × S) (k : A → M S C)
      → ((a : A) → Keeps f (k a))
      → f p.1 ≡ f s
      → f (then_do p k).1 ≡ f s
  then_do-Keeps s (ok a, t) k h e = h a t ∙ e
  then_do-Keeps s (raised x, t) k h e = e

  or_else_do-Keeps :
      {A : Type 0} (s : S) (p : Result A × S) (handler : Exc → Option (M S A))
      → ((e : Exc) (k : M S A) → handler e ≡ some k → Keeps f k)
      → f p.1 ≡ f s
      → f (or_else_do p handler).1 ≡ f s
  or_else_do-Keeps s (ok a, t) handler h e = e
  or_else_do-Keeps {A} s (raised x, t) handler h e = go (handler x) refl
    where
      go :
          (o : Option (M S A))
          → handler x ≡ o
          → f (let r : Result A × S = elim o [ none ↦ (raised x, t) | some k ↦ k t ] in r).1 ≡ f s
      go none q = e
      go (some k) q = h x k q t ∙ e

  pub Keeps-bind :
      {A C : Type 0} (m : M S A) (k : A → M S C)
      → Keeps f m
      → ((a : A) → Keeps f (k a))
      → Keeps f (m >>= k)
  unfolding ◌>>=◌
  Keeps-bind m k hm hk s = then_do-Keeps s (m s) k hk (hm s)

  pub Keeps-then : {A C : Type 0} (m : M S A) (k : M S C) → Keeps f m → Keeps f k → Keeps f (m >> k)
  unfolding ◌>>◌
  Keeps-then m k hm hk s = then_do-Keeps s (m s) (λ _. k) (λ _. hk) (hm s)

  pub Keeps-try_except :
      {A : Type 0} (m : M S A) (handler : Exc → Option (M S A))
      → Keeps f m
      → ((e : Exc) (k : M S A) → handler e ≡ some k → Keeps f k)
      → Keeps f (try_except m handler)
  unfolding try_except
  Keeps-try_except m handler hm h s = or_else_do-Keeps s (m s) handler h (hm s)

  pub Keeps-when : (b : Bool) (m : M S NoneType) → Keeps f m → Keeps f (when b m)
  Keeps-when true m h s = h s
  Keeps-when false m h s = refl

  pub Keeps-if :
      {A : Type 0} (b : Bool) (m k : M S A) → Keeps f m → Keeps f k → Keeps f (cond b m k)
  Keeps-if true m k hm hk s = hm s
  Keeps-if false m k hm hk s = hk s

  pub Keeps-for_each :
      {A : Type 0} (xs : List A) (body : A → M S NoneType)
      → ((a : A) → Keeps f (body a))
      → Keeps f (for_each xs body)
  unfolding for_each
  Keeps-for_each [] body h s = refl
  Keeps-for_each (x ∷ xs) body h s =
      Keeps-then (body x) (for_each xs body) (h x) (Keeps-for_each xs body h) s

-- A property of the state that every run of a call leaves true, also when it raises.
abbrev pub Preserves : {S A : Type 0} → (S → Type 0) → M S A → Type 0
Preserves {S} P m = (s : S) → P s → P (m s).1

-- What a call leaves unchanged where it raises.
abbrev pub KeepsOnRaise : {S A B : Type 0} → (S → B) → M S A → Type 0
KeepsOnRaise {S} f m = (s : S) (e : Exc) → (m s).0 ≡ raised e → f (m s).1 ≡ f s

module _ {S : Type 0} (P : S → Type 0) where
  then_do-Preserves :
      {A C : Type 0} (p : Result A × S) (k : A → M S C)
      → ((a : A) → Preserves P (k a))
      → P p.1
      → P (then_do p k).1
  then_do-Preserves (ok a, t) k h e = h a t e
  then_do-Preserves (raised x, t) k h e = e

  pub Preserves-bind :
      {A C : Type 0} (m : M S A) (k : A → M S C)
      → Preserves P m
      → ((a : A) → Preserves P (k a))
      → Preserves P (m >>= k)
  unfolding ◌>>=◌
  Preserves-bind m k hm hk s p = then_do-Preserves (m s) k hk (hm s p)

  pub Preserves-then :
      {A C : Type 0} (m : M S A) (k : M S C) → Preserves P m → Preserves P k → Preserves P (m >> k)
  unfolding ◌>>◌
  Preserves-then m k hm hk s p = then_do-Preserves (m s) (λ _. k) (λ _. hk) (hm s p)

  pub Preserves-if :
      {A : Type 0} (b : Bool) (m k : M S A)
      → Preserves P m
      → Preserves P k
      → Preserves P (cond b m k)
  Preserves-if true m k hm hk s p = hm s p
  Preserves-if false m k hm hk s p = hk s p

  -- `try: m except Exception: return a`
  pub Preserves-except_any :
      {A : Type 0} (m : M S A) (a : A) → Preserves P m → Preserves P (except_any m (λ _. pure a))
  unfolding except_any try_except
  Preserves-except_any {A} m a h s p = go (m s) (h s p)
    where
      go : (q : Result A × S) → P q.1 → P (or_else_do q (λ _. some (pure a))).1
      go (ok x, t) r = r
      go (raised e, t) r = r

  pub Preserves-when : (b : Bool) (m : M S NoneType) → Preserves P m → Preserves P (when b m)
  Preserves-when true m h s p = h s p
  Preserves-when false m h s p = p

module _ {S B : Type 0} (f : S → B) where
  then_do-KeepsOnRaise :
      {A C : Type 0} (s : S) (p : Result A × S) (k : A → M S C)
      → ((a : A) → KeepsOnRaise f (k a))
      → f p.1 ≡ f s
      → (e : Exc) → (then_do p k).0 ≡ raised e
      → f (then_do p k).1 ≡ f s
  then_do-KeepsOnRaise s (ok a, t) k h q e r = h a t e r ∙ q
  then_do-KeepsOnRaise s (raised x, t) k h q e r = q

  pub KeepsOnRaise-bind :
      {A C : Type 0} (m : M S A) (k : A → M S C)
      → Keeps f m
      → ((a : A) → KeepsOnRaise f (k a))
      → KeepsOnRaise f (m >>= k)
  unfolding ◌>>=◌
  KeepsOnRaise-bind m k hm hk s = then_do-KeepsOnRaise s (m s) k hk (hm s)

  pub KeepsOnRaise-then :
      {A C : Type 0} (m : M S A) (k : M S C)
      → Keeps f m
      → KeepsOnRaise f k
      → KeepsOnRaise f (m >> k)
  unfolding ◌>>◌
  KeepsOnRaise-then m k hm hk s = then_do-KeepsOnRaise s (m s) (λ _. k) (λ _. hk) (hm s)
