-- ===== src/Examples/Upgrades.antt =====
-- Migrations of the configuration of an older version.
use waydroid.Base.{◌≡◌, string_eq, [], ◌∷◌}
use waydroid.Base.Dict
use waydroid.Config
use waydroid.Config.Laws.{or_default}
use waydroid.Host.{Config}
use waydroid.Host.Machine.{machine, bare}
use waydroid.Upgrade.{add_missing, node_defaults, migrate_from}
use waydroid.Upgrade.Laws.{get?-add_missing, due_from, migrate_from-due}
use waydroid.Version.{versiontuple}

abbrev one_node : Config
one_node = ("waydroid", ("binder", "anbox-binder") ∷ []) ∷ []

get?-add_missing_example :
    Config.get? "hwbinder" (add_missing node_defaults one_node)
    ≡ or_default (Config.get? "hwbinder" one_node) (Dict.lookup "hwbinder" node_defaults)
get?-add_missing_example = get?-add_missing node_defaults "hwbinder" one_node

migrate_from-due_example :
    migrate_from machine "1.5.0" bare ≡ due_from machine (versiontuple "1.5.0") bare
migrate_from-due_example = migrate_from-due machine "1.5.0" bare
