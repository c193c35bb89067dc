-- ===== src/Drivers.antt =====
-- tools/helpers/drivers.py: the binder and ashmem drivers, and the device nodes that are used.
pub mod Laws
use waydroid.Base.{ℕ, ◌+◌, ◌*◌, String, ◌<>◌, Bool, true, false, not, ◌||◌, Option, none, some}
use waydroid.Base.{List, [], ◌∷◌, ◌++◌, M, Result, ok, raised, NoneType, pure, raise, gets, query}
use waydroid.Base.{then_result, os_error, index_error, when, for_each, suppress_file_exists, ◌>>=◌}
use waydroid.Base.{◌>>◌, ◌==◌, string_eq, if◌then◌else◌}
use waydroid.Base.Text.{words, lines, join}
use waydroid.Config
use waydroid.Config.{load}
use waydroid.Host.{Host, Config}
use waydroid.Run.{run_unchecked, run_output_unchecked}

unfoldable pub binder_drivers : List String
binder_drivers = "anbox-binder" ∷ "puddlejumper" ∷ "bonder" ∷ "binder" ∷ []

unfoldable pub vndbinder_drivers : List String
vndbinder_drivers = "anbox-vndbinder" ∷ "vndpuddlejumper" ∷ "vndbonder" ∷ "vndbinder" ∷ []

unfoldable pub hwbinder_drivers : List String
hwbinder_drivers = "anbox-hwbinder" ∷ "hwpuddlejumper" ∷ "hwbonder" ∷ "hwbinder" ∷ []

-- The attributes of `args` that the module sets.
pub record BinderNodes : Type 0 where
  pub binder : String
  pub vndbinder : String
  pub hwbinder : String
  pub binder_protocol : Option String
  pub service_manager_protocol : Option String

-- The names, with no protocols yet.
abbrev pub named_nodes : String → String → String → BinderNodes
named_nodes b v h = record {
  binder = b;
  vndbinder = v;
  hwbinder = h;
  binder_protocol = none;
  service_manager_protocol = none;
}

-- A line of `/proc/filesystems` that has `binder` for its second word.
names_binder : List String → Bool
names_binder (_ ∷ name ∷ _) = name == "binder"
names_binder _ = false

any_binder : List String → Bool
unfolding names_binder
any_binder [] = false
any_binder (line ∷ rest) = names_binder (words line) || any_binder rest

-- `_IOWR('b', 1, struct binderfs_device)`, of 264 bytes
unfoldable pub binder_ctl_add : ℕ
binder_ctl_add = 3 * 1073741824 + 98 * 256 + 1 + 264 * 65536

-- `NODES[:-1]`
unfoldable pub drop_last : List String → List String
drop_last [] = []
drop_last (x ∷ []) = []
drop_last (x ∷ y ∷ rest) = x ∷ drop_last (y ∷ rest)

-- `len(nodes) > 0`
is_nonempty : List String → Bool
is_nonempty [] = false
is_nonempty (_ ∷ _) = true

-- The first name of a family of nodes.
first_of_family : List String → Result String
first_of_family [] = raised (index_error "list index out of range")
first_of_family (node ∷ _) = ok node

module _ (H : Host) where
  open H use {State}

  unfoldable pub is_binderfs_loaded : State → Result Bool
  unfolding any_binder
  is_binderfs_loaded s =
      then_result (H.read "/proc/filesystems" s) (λ text. ok (any_binder (lines text)))

  unfoldable pub alloc_binder_nodes : List String → M State NoneType
  alloc_binder_nodes nodes =
      for_each nodes (λ node. suppress_file_exists (H.ioctl binder_ctl_add node))

  -- The loop over a family of nodes that notes whether one of them exists.
  has_node : List String → State → Bool
  has_node [] s = false
  has_node (node ∷ rest) s = H.exists ("/dev/" <> node) s || has_node rest s

  missing_from : List String → State → Result (List String)
  unfolding has_node first_of_family
  missing_from family s =
      if has_node family s
      then ok []
      else then_result (first_of_family family) (λ node. ok (node ∷ []))

  -- The nodes that `probeBinderDriver` asks for: one for each family without a node.
  unfoldable pub missing_nodes : State → Result (List String)
  unfolding missing_from
  missing_nodes s = then_result (missing_from binder_drivers s) (λ a.
      then_result (missing_from vndbinder_drivers s)
        (λ b. then_result (missing_from hwbinder_drivers s) (λ c. ok (a ++ (b ++ c)))))

  mount_binderfs : List String → M State NoneType
  mount_binderfs nodes = do
    run_unchecked H ("mkdir" ∷ "-p" ∷ "/dev/binderfs" ∷ [])
    run_unchecked H ("mount" ∷ "-t" ∷ "binder" ∷ "binder" ∷ "/dev/binderfs" ∷ [])
    alloc_binder_nodes nodes
    found ← gets (H.glob "/dev/binderfs/*")
    run_unchecked H ("ln" ∷ "-s" ∷ (found ++ ("/dev/" ∷ [])))
    pure tt

  load_module : List String → M State NoneType
  load_module nodes = do
    run_output_unchecked H
        ("modprobe" ∷ "binder_linux" ∷ ("devices=\"" <> (join "," nodes <> "\"")) ∷ [])
    pure tt

  bring_up : List String → M State NoneType
  unfolding load_module mount_binderfs
  bring_up nodes = do
    loaded ← query is_binderfs_loaded
    when (not loaded) (load_module nodes)
    loaded' ← query is_binderfs_loaded
    when loaded' (mount_binderfs nodes)

  -- Its result is always 0; the texts that it logs are not modelled.
  unfoldable pub probe_binder_driver : M State NoneType
  unfolding bring_up is_nonempty
  probe_binder_driver = do nodes ← query missing_nodes; when (is_nonempty nodes) (bring_up nodes)

  -- True is for the result 0, false for -1.
  unfoldable pub probe_ashmem_driver : M State Bool
  probe_ashmem_driver = do
    exists ← gets (H.exists "/dev/ashmem")
    when (not exists) (run_unchecked H ("modprobe" ∷ "-q" ∷ "ashmem_linux" ∷ []) >> pure tt)
    gets (H.exists "/dev/ashmem")

  -- The loop that sets the attribute to each node that exists: the last one stays.
  unfoldable pub last_node : List String → Option String → State → Option String
  last_node [] chosen s = chosen
  last_node (node ∷ rest) chosen s =
      last_node rest (if H.exists ("/dev/" <> node) s then some node else chosen) s

  choose : String → List String → State → Result String
  choose name family s = elim (last_node family none s) [
    | none ↦ raised (os_error ("Binder node \"" <> (name <> "\" for waydroid not found")))
    | some node ↦ ok node
  ]

  choose_nodes : List String → List String → List String → State → Result BinderNodes
  unfolding choose
  choose_nodes binders vndbinders hwbinders s = then_result (choose "binder" binders s) (λ b.
      then_result (choose "vndbinder" vndbinders s)
        (λ v. then_result (choose "hwbinder" hwbinders s) (λ h. ok (named_nodes b v h))))

  -- The three attributes are the result; the protocols are not touched by it.
  unfoldable pub setup_binder_nodes : String → M State BinderNodes
  unfolding choose_nodes
  setup_binder_nodes vendor_type =
      if vendor_type == "MAINLINE"
      then probe_binder_driver
        >> query (choose_nodes binder_drivers vndbinder_drivers hwbinder_drivers)
      else query (
          choose_nodes (drop_last binder_drivers) (drop_last vndbinder_drivers)
            (drop_last hwbinder_drivers))

  or_else : Option String → String → String
  or_else none value = value
  or_else (some v) _ = v

  unfoldable pub load_binder_nodes : M State BinderNodes
  unfolding or_else
  load_binder_nodes = do
    cfg ← load H
    pure (record {
      binder = or_else (Config.get? "binder" cfg) "binder";
      vndbinder = or_else (Config.get? "vndbinder" cfg) "vndbinder";
      hwbinder = or_else (Config.get? "hwbinder" cfg) "hwbinder";
      binder_protocol = Config.get? "binder_protocol" cfg;
      service_manager_protocol = Config.get? "service_manager_protocol" cfg;
    })
