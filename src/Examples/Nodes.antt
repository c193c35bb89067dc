-- ===== src/Examples/Nodes.antt =====
-- The devices of a container, on a host with none of the optional ones.
use waydroid.Base.{◌≡◌, ◌||◌, refl, String, true, List, ◌==◌, string_eq}
use waydroid.Drivers.{BinderNodes, named_nodes}
use waydroid.Examples.Everything.{everything}
use waydroid.Host.Machine.{machine, bare}
use waydroid.Lxc.Nodes.{all_nodes, entries}
use waydroid.Lxc.Nodes.Laws.{IsInside, binder_entries, generate_nodes_lxc_config-IsInside}

abbrev nodes : BinderNodes
nodes = named_nodes "anbox-binder" "vndbinder" "hwbinder"

abbrev mainline_entries : List String
mainline_entries = entries machine (all_nodes machine "MAINLINE" nodes "" bare) bare

generate_nodes_lxc_config-IsInside_example :
    ((◌==◌ {A = String} "MAINLINE" "MAINLINE" || machine.exists "/dev/hwbinder" bare) ≡ true)
    × IsInside (binder_entries nodes) mainline_entries
unfolding everything
generate_nodes_lxc_config-IsInside_example =
    generate_nodes_lxc_config-IsInside machine "MAINLINE" nodes bare mainline_entries refl
