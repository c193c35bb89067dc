-- ===== src/Examples/Killing.antt =====
-- A command that has a child, and that one a child too.
use mathlib.Core.List.{Memᴰ}
use mathlib.Core.List.Memᴰ
use waydroid.Base.{
  ℕ, ◌<◌, ◌≡◌, sym, arith, String, List, [], ◌∷◌, for_each, string_eq, ◌==◌, if◌then◌else◌,
}
use waydroid.Host.Machine.{machine}
use waydroid.Run.Kill.{kill, kill_process_tree}
use waydroid.Run.Kill.Laws.{Descends, IsForest, kill_process_tree-kills}
use mathlib.Core.Path.{subst}

abbrev table : List (String × String)
table = ("1", "0") ∷ ("40", "1") ∷ ("41", "40") ∷ ("42", "41") ∷ []

abbrev rank : String → ℕ
rank pid =
    if pid == "42"
    then 0
    else if pid == "41"
    then 1
    else if pid == "40"
    then 2
    else if pid == "1"
    then 3
    else 4

row-smaller :
    (c p d q : String) → ◌≡◌ {A = String × String} (c, p) (d, q) → rank d < rank q → rank c < rank p
row-smaller c p d q e small = subst (λ x. rank x.0 < rank x.1) (sym e) small

table-IsForest : IsForest rank table
unfolding string_eq
table-IsForest c p (Memᴰ.head e) = row-smaller c p "1" "0" e (omega arith)
table-IsForest c p (Memᴰ.tail (Memᴰ.head e)) = row-smaller c p "40" "1" e (omega arith)
table-IsForest c p (Memᴰ.tail (Memᴰ.tail (Memᴰ.head e))) = row-smaller c p "41" "40" e (omega arith)
table-IsForest c p (Memᴰ.tail (Memᴰ.tail (Memᴰ.tail (Memᴰ.head e)))) =
    row-smaller c p "42" "41" e (omega arith)
table-IsForest c p (Memᴰ.tail (Memᴰ.tail (Memᴰ.tail (Memᴰ.tail m)))) = absurd (Memᴰ.not-nil m)

kill_process_tree-kills_example :
    (pids : List String) × (kill_process_tree machine 3 table "40" ≡ for_each pids (kill machine))
    × ((q : String) → Memᴰ q pids → Descends table "40" q)
    × ((q : String) → Descends table "40" q → Memᴰ q pids)
unfolding string_eq
kill_process_tree-kills_example =
    kill_process_tree-kills rank table table-IsForest machine 3 "40" (omega arith)
