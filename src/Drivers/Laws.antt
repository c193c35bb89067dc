-- ===== src/Drivers/Laws.antt =====
-- Which binder nodes are chosen, and when none can be.
use waydroid.Base.{
  ◌≡◌, refl, ◌⊎◌, inl, inr, String, ◌<>◌, true, false, Option, none, some, List, [],
}
use waydroid.Base.{◌∷◌, arith, Result, ok, raised, query, Bool-cases, ◌==◌, if◌then◌else◌}
use waydroid.Base.{string_eq, then_result}
use waydroid.Base.Refusal.{then-eq-ok, query-eq-ok}
use waydroid.Host.{Host}
use waydroid.Drivers.{binder_drivers, vndbinder_drivers, hwbinder_drivers, drop_last, BinderNodes}
use waydroid.Drivers.{last_node, choose, choose_nodes, probe_binder_driver}
use waydroid.Drivers.{setup_binder_nodes, named_nodes}

-- The members of a family that a vendor type admits: all on MAINLINE, and else not the standard
-- name, which is the last.
abbrev pub admitted : String → List String → List String
admitted vendor_type family = if vendor_type == "MAINLINE" then family else drop_last family

three_results :
    {A C : Type 0} (x y z : Result A) (f : A → A → A → C) (r : C)
    → then_result x (λ a. then_result y (λ b. then_result z (λ c. ok (f a b c)))) ≡ ok r
    → (a b c : A) × (x ≡ ok a) × (y ≡ ok b) × (z ≡ ok c) × (f a b c ≡ r)
three_results (ok a) (ok b) (ok c) f r h = (a, b, c, refl, refl, refl, cc)
three_results (ok a) (ok b) (raised e) f r h = absurd (cc h)
three_results (ok a) (raised e) z f r h = absurd (cc h)
three_results (raised e) y z f r h = absurd (cc h)

module _ (H : Host) where
  open H use {State}

  abbrev pub NoneExists : List String → State → Type 0
  NoneExists [] s = Unit
  NoneExists (node ∷ rest) s = (H.exists ("/dev/" <> node) s ≡ false) × NoneExists rest s

  -- `node` is the last member of the family that exists.
  abbrev pub IsLastNode : List String → String → State → Type 0
  IsLastNode [] node s = ⊥
  IsLastNode (x ∷ rest) node s =
      ((node ≡ x) × (H.exists ("/dev/" <> x) s ≡ true) × NoneExists rest s) ⊎ IsLastNode rest node s

  last_node_cases :
      (family : List String) (chosen : Option String) (s : State)
      → (NoneExists family s × (last_node H family chosen s ≡ chosen))
        ⊎ ((node : String) × IsLastNode family node s × (last_node H family chosen s ≡ some node))
  unfolding last_node
  last_node_cases [] chosen s = inl (tt, refl)
  last_node_cases (x ∷ rest) chosen s = elim (Bool-cases (H.exists ("/dev/" <> x) s)) [
    | inl e ↦ elim (last_node_cases rest (some x) s) [
      | inl (absent, same) ↦ inr (x, inl (refl, e, absent), rw e same)
      | inr (node, last, found) ↦ inr (node, inr last, rw e found)
    ]
    | inr e ↦ elim (last_node_cases rest chosen s) [
      | inl (absent, same) ↦ inl ((e, absent), rw e same)
      | inr (node, last, found) ↦ inr (node, inr last, rw e found)
    ]
  ]

  choose-eq-ok :
      (name : String) (family : List String) (s : State) (node : String)
      → choose H name family s ≡ ok node
      → IsLastNode family node s
  unfolding choose
  choose-eq-ok name family s node h = elim (last_node_cases family none s) [
    | inl (absent, same) ↦ ground arith
    | inr (n, last, found) ↦ let e : n ≡ node = ground arith in rw (← e) last
  ]

  choose_nodes-eq-ok :
      (b v h : List String) (s : State) (nodes : BinderNodes)
      → choose_nodes H b v h s ≡ ok nodes
      → IsLastNode b nodes.binder s × IsLastNode v nodes.vndbinder s × IsLastNode h nodes.hwbinder s
  unfolding choose_nodes
  choose_nodes-eq-ok b v h s nodes e =
      let (x, y, z, first, second, third, same) =
        three_results (choose H "binder" b s) (choose H "vndbinder" v s) (choose H "hwbinder" h s)
          named_nodes nodes e in
      (
        rw (← same) (choose-eq-ok "binder" b s x first),
        rw (← same) (choose-eq-ok "vndbinder" v s y second),
        rw (← same) (choose-eq-ok "hwbinder" h s z third),
      )

  queried-eq-ok :
      (b v h : List String) (s t : State) (nodes : BinderNodes)
      → query (choose_nodes H b v h) s ≡ (ok nodes, t)
      → IsLastNode b nodes.binder t × IsLastNode v nodes.vndbinder t × IsLastNode h nodes.hwbinder t
  queried-eq-ok b v h s t nodes e =
      choose_nodes-eq-ok b v h t nodes (query-eq-ok (choose_nodes H b v h) s t nodes e).1

  -- Where setup_binder_nodes returns, each of the three nodes that it chose exists, is admitted
  -- for the vendor type, and is the last existing one in its list.
  pub setup_binder_nodes-IsLastNode :
      (vendor_type : String) (s t : State) (nodes : BinderNodes)
      → setup_binder_nodes H vendor_type s ≡ (ok nodes, t)
      → IsLastNode (admitted vendor_type binder_drivers) nodes.binder t
        × IsLastNode (admitted vendor_type vndbinder_drivers) nodes.vndbinder t
        × IsLastNode (admitted vendor_type hwbinder_drivers) nodes.hwbinder t
  unfolding setup_binder_nodes
  setup_binder_nodes-IsLastNode vendor_type s t nodes h =
      elim (Bool-cases (vendor_type == "MAINLINE")) [
        | inl e ↦ rw e (
            let (_, u, _, rest) = then-eq-ok (probe_binder_driver H) _ s t nodes (rw e at h) in
            queried-eq-ok _ _ _ u t nodes rest)
        | inr e ↦ rw e (queried-eq-ok _ _ _ s t nodes (rw e at h))
      ]
