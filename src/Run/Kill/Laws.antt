-- ===== src/Run/Kill/Laws.antt =====
-- tools/helpers/run_core.py: which processes are killed.
use mathlib.Core.List.{Memᴰ}
use mathlib.Core.List.Memᴰ
use mathlib.Core.Path.{ap₂, fun_ext, subst}
use waydroid.Base.{
  same_text, ℕ, zero, suc, ◌<◌, ◌≡◌, refl, sym, ap, ◌∙◌, ◌⊎◌, inl, inr, arith, String, Bool, true,
  false, List, [], ◌∷◌, ◌++◌,
}
use waydroid.Base.{
  M, NoneType, when, for_each, ok, raised, then_do, ◌>>◌, ◌==◌, ==_refl, string_eq, if◌then◌else◌,
  Result,
}
use waydroid.Host.{Host}
use waydroid.Run.Kill.{kill, kill_child, kill_process_tree}

-- The processes of a table that come from a process, itself among them.
pub data Descends (ppids : List (String × String)) : String → String → Type 0 where
  self : {pid : String} → Descends ppids pid pid
  child :
      {pid child_pid q : String}
      → Memᴰ (child_pid, pid) ppids
      → Descends ppids child_pid q
      → Descends ppids pid q

-- Each child has a smaller rank than its parent, as in any forest; so no process is below itself.
abbrev pub IsForest : (String → ℕ) → List (String × String) → Type 0
IsForest rank ppids = (c p : String) → Memᴰ (c, p) ppids → rank c < rank p

-- The processes below a process, each once for each way down, in the order of the calls.
spawned : (String → List String) → String → List (String × String) → List String
spawned below pid [] = []
spawned below pid ((c, p) ∷ rest) = (if p == pid then below c else []) ++ spawned below pid rest

tree_order : ℕ → List (String × String) → String → List String
tree_order zero ppids pid = []
tree_order (suc fuel) ppids pid = pid ∷ spawned (tree_order fuel ppids) pid ppids

then_assoc : {S : Type 0} (m k l : M S NoneType) → ((m >> k) >> l) ≡ (m >> (k >> l))
unfolding ◌>>◌
then_assoc m k l = fun_ext (λ s. go (m s))
  where
    go : (p : Result NoneType × _) → then_do (then_do p (λ _. k)) (λ _. l) ≡ then_do p (λ _. k >> l)
    go (ok _, t) = refl
    go (raised e, t) = refl

for_each-append :
    {S : Type 0} (xs ys : List String) (body : String → M S NoneType)
    → for_each (xs ++ ys) body ≡ (for_each xs body >> for_each ys body)
unfolding for_each ◌>>◌
for_each-append [] ys body = refl
for_each-append (x ∷ xs) ys body =
    ap (λ m. body x >> m) (for_each-append xs ys body)
    ∙ sym (then_assoc (body x) (for_each xs body) (for_each ys body))

-- The loop over the table, where each child's own call kills its tree.
spawned-run :
    {S : Type 0} (run : String → M S NoneType) (order : String → List String)
    (below : String → M S NoneType) (pid : String) (rest : List (String × String))
    → ((c : String) → Memᴰ (c, pid) rest → below c ≡ for_each (order c) run)
    → for_each rest (kill_child below pid) ≡ for_each (spawned order pid rest) run
unfolding for_each spawned
spawned-run run order below pid [] each = refl
spawned-run {S} run order below pid ((c, p) ∷ rest) each =
    ap₂ (λ (m k : M S NoneType). m >> k) (first (p == pid) refl)
      (spawned-run run order below pid rest (λ c m. each c (Memᴰ.tail m)))
    ∙ sym (for_each-append (if p == pid then order c else []) (spawned order pid rest) run)
  where
    first :
        (b : Bool) → (p == pid) ≡ b → when b (below c) ≡ for_each (if b then order c else []) run
    first true e = each c (Memᴰ.head (ap (λ q. (c, q)) (sym (same_text p pid e))))
    first false e = refl

spawned-Mem :
    (order : String → List String) (pid c q : String) (rest : List (String × String))
    → Memᴰ (c, pid) rest
    → Memᴰ q (order c)
    → Memᴰ q (spawned order pid rest)
unfolding spawned
spawned-Mem order pid c q [] m n = absurd (Memᴰ.not-nil m)
spawned-Mem order pid c q ((d, p) ∷ rest) (Memᴰ.head e) n =
    Memᴰ.append_left (spawned order pid rest)
      (taken (p == pid) (ap (λ x. x == pid) (sym (ap (λ z. z.1) e)) ∙ ==_refl pid))
  where
    taken : (b : Bool) → b ≡ true → Memᴰ q (if b then order d else [])
    taken true h = subst (λ x. Memᴰ q (order x)) (ap (λ z. z.0) e) n
    taken false h = cc
spawned-Mem order pid c q ((d, p) ∷ rest) (Memᴰ.tail m) n =
    Memᴰ.append_right (if p == pid then order d else []) (spawned-Mem order pid c q rest m n)

spawned-from :
    (order : String → List String) (pid q : String) (rest : List (String × String))
    → Memᴰ q (spawned order pid rest)
    → (c : String) × Memᴰ (c, pid) rest × Memᴰ q (order c)
unfolding spawned
spawned-from order pid q [] m = absurd (Memᴰ.not-nil m)
spawned-from order pid q ((d, p) ∷ rest) m =
    go (p == pid) refl (Memᴰ.append_cases (if p == pid then order d else []) m)
      (spawned-from order pid q rest)
  where
    go :
        (b : Bool)
        → (p == pid) ≡ b
        → Memᴰ q (if b then order d else []) ⊎ Memᴰ q (spawned order pid rest)
        → (Memᴰ q (spawned order pid rest) → (c : String) × Memᴰ (c, pid) rest × Memᴰ q (order c))
        → (c : String) × Memᴰ (c, pid) ((d, p) ∷ rest) × Memᴰ q (order c)
    go true e (inl n) later = (d, Memᴰ.head (ap (λ x. (d, x)) (sym (same_text p pid e))), n)
    go false e (inl n) later = absurd (Memᴰ.not-nil n)
    go b e (inr n) later = let (c, m, k) = later n in (c, Memᴰ.tail m, k)

tree_order-Descends :
    (fuel : ℕ) (ppids : List (String × String)) (pid q : String)
    → Memᴰ q (tree_order fuel ppids pid)
    → Descends ppids pid q
unfolding tree_order
tree_order-Descends zero ppids pid q m = absurd (Memᴰ.not-nil m)
tree_order-Descends (suc fuel) ppids pid q (Memᴰ.head e) =
    subst (λ x. Descends ppids pid x) (sym e) self
tree_order-Descends (suc fuel) ppids pid q (Memᴰ.tail m) =
    let (c, listed, n) = spawned-from (tree_order fuel ppids) pid q ppids m in
    child listed (tree_order-Descends fuel ppids c q n)

module _ (rank : String → ℕ) (ppids : List (String × String)) (forest : IsForest rank ppids) where
  Descends-tree_order :
      (fuel : ℕ) (pid q : String)
      → rank pid < fuel
      → Descends ppids pid q
      → Memᴰ q (tree_order fuel ppids pid)
  unfolding tree_order
  Descends-tree_order zero pid q small d = absurd (omega arith)
  Descends-tree_order (suc fuel) pid q small self = Memᴰ.head refl
  Descends-tree_order (suc fuel) pid q small (child {child_pid = c} listed d) = Memᴰ.tail (
      spawned-Mem (tree_order fuel ppids) pid c q ppids listed
        (Descends-tree_order fuel c q (let below = forest c pid listed in omega arith) d))

  kill_process_tree-order :
      (H : Host) (fuel : ℕ) (pid : String)
      → rank pid < fuel
      → kill_process_tree H fuel ppids pid ≡ for_each (tree_order fuel ppids pid) (kill H)
  unfolding kill_process_tree tree_order for_each
  kill_process_tree-order H zero pid small = absurd (omega arith)
  kill_process_tree-order H (suc fuel) pid small =
      ap (λ m. kill H pid >> m)
        (spawned-run (kill H) (tree_order fuel ppids) (kill_process_tree H fuel ppids) pid ppids
          (λ c listed.
            kill_process_tree-order H fuel c (let below = forest c pid listed in omega arith)))

  -- Where each child in the table has a smaller rank than its parent, and the stack is deeper
  -- than the rank of the process, killing the tree never runs out of the stack: it is the
  -- killing, one after the other, of a list of processes, in which there stand the process and
  -- all that descend from it, and no others.
  pub kill_process_tree-kills :
      (H : Host) (fuel : ℕ) (pid : String)
      → rank pid < fuel
      → (pids : List String) × (kill_process_tree H fuel ppids pid ≡ for_each pids (kill H))
        × ((q : String) → Memᴰ q pids → Descends ppids pid q)
        × ((q : String) → Descends ppids pid q → Memᴰ q pids)
  kill_process_tree-kills H fuel pid small = (
    tree_order fuel ppids pid,
    kill_process_tree-order H fuel pid small,
    tree_order-Descends fuel ppids pid,
    λ q. Descends-tree_order fuel pid q small,
  )
