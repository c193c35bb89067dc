-- ===== src/Lxc/Nodes/Laws.antt =====
-- tools/helpers/lxc.py: the binder nodes that the container is given.
use waydroid.Base.{
  ◌≡◌, refl, ap, ◌∙◌, sym, String, ◌<>◌, Bool, true, false, not, ◌||◌, some, List, [], ◌∷◌, ◌++◌,
}
use waydroid.Base.{os_error, Exc, ok, raised, ◌==◌, string_eq, if◌then◌else◌}
use waydroid.Base.Refusal.{then_result-eq-ok}
use waydroid.Drivers.{BinderNodes}
use waydroid.Gpu.{render_node}
use waydroid.Host.{Host}
use waydroid.Lxc.Nodes.{
  Node, default_options, device_nodes, binder_nodes, globbed, plain, entries, all_nodes, nodes_for,
  generate_nodes_lxc_config,
}
use waydroid.Lxc.Session.{node_entry}

-- The entries of the three nodes, under the names that Android knows them by.
abbrev pub binder_entries : BinderNodes → List String
binder_entries nodes =
    node_entry ("/dev/" <> nodes.binder) (some "dev/binder") "none" default_options
    ∷ node_entry ("/dev/" <> nodes.vndbinder) (some "dev/vndbinder") "none" default_options
    ∷ node_entry ("/dev/" <> nodes.hwbinder) (some "dev/hwbinder") "none" default_options
    ∷ []

abbrev pub IsInside : List String → List String → Type 0
IsInside part ns = (before after : List String) × (ns ≡ before ++ (part ++ after))

guarded :
    {A : Type 0} (b : Bool) (e : Exc) (l ns : A)
    → (if not b then raised e else ok l) ≡ ok ns
    → (b ≡ true) × (l ≡ ns)
guarded true e l ns h = (refl, cc)
guarded false e l ns h = cc

IsInside-later :
    (b : Bool) (part : List String) (e : String) (later : List String)
    → IsInside part later
    → IsInside part (if b then e ∷ later else later)
IsInside-later true part e later (before, after, p) = (e ∷ before, after, ap (λ l. e ∷ l) p)
IsInside-later false part e later inside = inside

module _ (H : Host) where
  open H use {State}

  IsInside-entries :
      (part : List String) (xs ys : List Node) (s : State)
      → IsInside part (entries H ys s)
      → IsInside part (entries H (xs ++ ys) s)
  unfolding entries
  IsInside-entries part [] ys s inside = inside
  IsInside-entries part (x ∷ xs) ys s inside =
      IsInside-later (not x.check || H.exists x.src s) part _ _
        (IsInside-entries part xs ys s inside)

  binder_nodes-IsInside :
      (nodes : BinderNodes) (rest : List Node) (s : State)
      → IsInside (binder_entries nodes) (entries H (binder_nodes nodes ++ rest) s)
  unfolding entries binder_nodes
  binder_nodes-IsInside nodes rest s = ([], entries H rest s, refl)

  all_nodes-IsInside :
      (vendor_type : String) (nodes : BinderNodes) (render : String) (s : State)
      → IsInside (binder_entries nodes) (entries H (all_nodes H vendor_type nodes render s) s)
  unfolding all_nodes
  all_nodes-IsInside vendor_type nodes render s =
      let part = binder_entries nodes in
      IsInside-entries part device_nodes _ s (
        IsInside-entries part (plain render ∷ []) _ s
          (IsInside-entries part (globbed H s) _ s (binder_nodes-IsInside nodes _ s)))

  nodes_for-IsInside :
      (vendor_type : String) (nodes : BinderNodes) (s : State) (render : String) (ns : List String)
      → nodes_for H vendor_type nodes s render ≡ ok ns
      → ((vendor_type == "MAINLINE" || H.exists "/dev/hwbinder" s) ≡ true)
        × IsInside (binder_entries nodes) ns
  unfolding nodes_for
  nodes_for-IsInside vendor_type nodes s render ns h =
      let (found, same) =
        guarded (vendor_type == "MAINLINE" || H.exists "/dev/hwbinder" s)
          (os_error "Binder node \"hwbinder\" of host not found")
          (entries H (all_nodes H vendor_type nodes render s) s) ns h in
      let (before, after, p) = all_nodes-IsInside vendor_type nodes render s in
      (found, (before, after, sym same ∙ p))

  -- Where generate_nodes_lxc_config returns, the vendor type is MAINLINE or the host has
  -- /dev/hwbinder, and the entries that map the three chosen binder nodes to the names that
  -- Android knows stand in the result, one after the other.
  pub generate_nodes_lxc_config-IsInside :
      (vendor_type : String) (nodes : BinderNodes) (s : State) (ns : List String)
      → generate_nodes_lxc_config H vendor_type nodes s ≡ ok ns
      → ((vendor_type == "MAINLINE" || H.exists "/dev/hwbinder" s) ≡ true)
        × IsInside (binder_entries nodes) ns
  unfolding generate_nodes_lxc_config
  generate_nodes_lxc_config-IsInside vendor_type nodes s ns h =
      let (render, _, rest) =
        then_result-eq-ok (render_node H s) (nodes_for H vendor_type nodes s) ns h in
      nodes_for-IsInside vendor_type nodes s render ns rest
