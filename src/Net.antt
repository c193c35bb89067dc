-- ===== src/Net.antt =====
-- tools/helpers/net.py: the connection of adb to the container.
use waydroid.Base.{
  String, not, Option, none, some, [], ◌∷◌, M, NoneType, pure, raise, gets, runtime_error, when,
}
use waydroid.Base.{query, try_except, is_os_error, ◌>>=◌, ◌>>◌, if◌then◌else◌}
use waydroid.Host.{Host}
use waydroid.Run.{run}

-- The regular expression is Python's: `find_address` is `re.search` for an address, stripped.
module _ (H : Host) (find_address : String → Option String) where
  open H use {State}

  unfoldable pub get_device_ip_address : M State (Option String)
  get_device_ip_address =
      try_except
        (do
          text ← query (H.read "/var/lib/misc/dnsmasq.waydroid0.leases")
          pure (find_address text))
        (λ e. if is_os_error e then some (pure none) else none)

  demand_ip : String → M State String
  demand_ip message = do
    ip ← get_device_ip_address
    elim ip [ none ↦ raise (runtime_error message) | some address ↦ pure address ]

  unfoldable pub adb_connect : M State NoneType
  unfolding demand_ip
  adb_connect = do
    found ← gets (H.which "adb")
    when (not found) (raise (runtime_error "Could not find adb"))
    run H ("adb" ∷ "start-server" ∷ [])
    ip ← demand_ip "Unknown container IP address. Is Waydroid running?"
    run H ("adb" ∷ "connect" ∷ ip ∷ [])

  unfoldable pub adb_disconnect : M State NoneType
  unfolding demand_ip
  adb_disconnect = do
    found ← gets (H.which "adb")
    when (not found) (raise (runtime_error "Could not find adb"))
    ip ← demand_ip "Unknown container IP address. Was Waydroid ever running?"
    run H ("adb" ∷ "disconnect" ∷ ip ∷ [])
