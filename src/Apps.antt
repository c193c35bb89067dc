-- ===== src/Apps.antt =====
-- tools/actions/app_manager.py, prop.py and status.py: the commands that talk to a running session.
pub mod Laws
use waydroid.Base.{
  ℕ, String, ◌<>◌, Bool, true, false, not, ◌||◌, Option, none, some, List, [], ◌∷◌, map,
}
use waydroid.Base.{
  M, Exc, NoneType, key_error, dbus_error, pure, raise, gets, query, modify, when, for_each,
  try_except, except_any,
}
use waydroid.Base.{◌>>=◌, ◌>>◌, ◌==◌, string_eq, nat_eq, if◌then◌else◌}
use waydroid.Base.Dict.{item, is_some}
use waydroid.Base.Text.{str}
use waydroid.Config
use waydroid.Config.{load, section_of}
use waydroid.Host.{Host}
use waydroid.Images.Rootfs.{Session}
use waydroid.Net.{get_device_ip_address}

pub record App : Type 0 where
  pub name : String
  pub package_name : String
  pub categories : List String

-- The services on D-Bus and in the container, as the commands call them, and the terminal.
pub record Services (H : Host) : Type 0 where
  -- `DBusSessionService()` and `DBusContainerService()`, which raise where nobody answers
  pub session_service : M (Host.State H) NoneType
  pub container_service : M (Host.State H) NoneType
  pub get_session : M (Host.State H) Session
  pub freeze : M (Host.State H) NoneType
  pub unfreeze : M (Host.State H) NoneType
  -- whether `IPlatform.get_service` and `IStatusBarService.get_service` have found the service
  pub platform : M (Host.State H) Bool
  pub status_bar : M (Host.State H) Bool
  pub install_app : String → M (Host.State H) NoneType
  pub remove_app : String → M (Host.State H) ℕ
  pub apps : M (Host.State H) (List App)
  pub launch_app : String → M (Host.State H) NoneType
  pub launch_intent : String → String → M (Host.State H) String
  pub getprop : String → String → M (Host.State H) String
  pub setprop : String → String → M (Host.State H) NoneType
  -- `settingsPutString(2, key, value)`
  pub settings_put : String → String → M (Host.State H) NoneType
  pub expand : M (Host.State H) NoneType
  pub collapse : M (Host.State H) NoneType
  pub print : String → M (Host.State H) NoneType

-- `except dbus.DBusException`, or with `KeyError` beside it
unfoldable pub is_caught : Bool → Exc → Bool
is_caught with_keys (dbus_error _) = true
is_caught with_keys (key_error _) = with_keys
is_caught with_keys _ = false

module _ (H : Host) (V : Services H) where
  open H use {State}

  -- What the commands do round their own part: a frozen container is thawed before, and frozen
  -- again behind.
  unfoldable pub thawed : M State NoneType → M State NoneType
  thawed body = do
    V.session_service
    V.container_service
    session ← V.get_session
    state ← query (λ _. item "state" session)
    if state == "FROZEN" then V.unfreeze >> (body >> V.freeze) else body

  -- The exceptions that say that there is no session are only logged.
  unfoldable pub in_session : Bool → M State NoneType → M State NoneType
  in_session with_keys body =
      try_except (thawed body) (λ e. if is_caught with_keys e then some (pure tt) else none)

  -- Nothing is done where the platform's service is not found.
  unfoldable pub on_platform : M State NoneType → M State NoneType
  on_platform body = do found ← V.platform; when found body

  -- `data` is the session's own directory.
  unfoldable pub install_package : String → String → M State NoneType
  install_package data_dir app_id = do
    let tmp_dir = data_dir <> "/waydroid_tmp"
    exists ← gets (H.exists tmp_dir)
    when (not exists) (H.make_dirs tmp_dir)
    H.copy app_id (tmp_dir <> "/base.apk")
    on_platform (V.install_app "/data/waydroid_tmp/base.apk")
    H.remove (tmp_dir <> "/base.apk")

  unfoldable pub install : String → String → M State NoneType
  install data_dir app_id = in_session true (install_package data_dir app_id)

  -- A code that is not 0 is only logged.
  unfoldable pub remove : String → M State NoneType
  remove app_id = in_session false (on_platform (V.remove_app app_id >> pure tt))

  unfoldable pub print_app : App → M State NoneType
  print_app app = do
    V.print ("Name: " <> app.name)
    V.print ("packageName: " <> app.package_name)
    V.print "categories:"
    for_each app.categories (λ category. V.print ("\t" <> category))

  unfoldable pub list_apps : M State NoneType
  list_apps = in_session false (on_platform (V.apps >>= (λ apps. for_each apps print_app)))

  -- The session is started where there is none: `start` is `session_manager.start`.
  unfoldable pub maybe_launch_later : M State NoneType → M State NoneType → M State NoneType
  maybe_launch_later start launch_now =
      try_except
        (V.session_service
          >> (except_any (V.container_service >> V.unfreeze) (λ _. pure tt) >> launch_now))
        (λ e. if is_caught false e then some start else none)

  -- The bars of Android are hidden, and in one window the status bar only.
  unfoldable pub hide_bars : M State NoneType
  hide_bars = do
    multiwin ← V.getprop "persist.waydroid.multi_windows" "false"
    V.settings_put "policy_control"
        (if multiwin == "false" then "immersive.status=*" else "immersive.full=*")

  unfoldable pub just_launch : String → M State NoneType
  just_launch app_id =
      on_platform (do V.setprop "waydroid.active_apps" app_id; V.launch_app app_id; hide_bars)

  unfoldable pub launch : M State NoneType → String → M State NoneType
  launch start app_id = maybe_launch_later start (just_launch app_id)

  unfoldable pub show_intent : String → M State NoneType
  show_intent answer = if answer == "" then pure tt else (do
    V.setprop "waydroid.active_apps" (if answer == "android" then "Waydroid" else answer)
    hide_bars)

  unfoldable pub just_intent : String → String → M State NoneType
  just_intent action uri = on_platform (V.launch_intent action uri >>= show_intent)

  unfoldable pub intent : M State NoneType → String → String → M State NoneType
  intent start action uri = maybe_launch_later start (just_intent action uri)

  unfoldable pub refresh : M State NoneType
  refresh = do found ← V.status_bar; when found (V.expand >> (modify H.sleep >> V.collapse))

  unfoldable pub just_show : M State NoneType
  just_show = on_platform (do
    V.setprop "waydroid.active_apps" "Waydroid"
    V.settings_put "policy_control" "null*"
    refresh)

  unfoldable pub show_full_ui : M State NoneType → M State NoneType
  show_full_ui start = maybe_launch_later start just_show

  -- `waydroid prop get` and `prop set`, with `get` and `set` of tools/helpers/props.py
  unfoldable pub print_prop : String → M State NoneType
  print_prop key =
      on_platform (do value ← V.getprop key ""; when (not (value == "")) (V.print value))

  unfoldable pub prop_get : String → M State NoneType
  prop_get key = in_session true (print_prop key)

  unfoldable pub prop_set : String → String → M State NoneType
  prop_set key value = in_session true (on_platform (V.setprop key value))

  -- `waydroid status`, `find_address` being the search for an address of Net
  unfoldable pub print_stopped : String → M State NoneType
  print_stopped vendor_type = do
    V.print "Session:\tSTOPPED"
    V.print ("Vendor type:\t" <> vendor_type)

  unfoldable pub print_running : (String → Option String) → String → Session → M State NoneType
  print_running find_address vendor_type session = do
    V.print "Session:\tRUNNING"
    state ← query (λ _. item "state" session)
    V.print ("Container:\t" <> state)
    V.print ("Vendor type:\t" <> vendor_type)
    ip ← get_device_ip_address H find_address
    V.print ("IP address:\t" <> (elim ip [ none ↦ "UNKNOWN" | some address ↦ address ]))
    user_name ← query (λ _. item "user_name" session)
    user_id ← query (λ _. item "user_id" session)
    V.print ("Session user:\t" <> (user_name <> ("(" <> (user_id <> ")"))))
    wayland_display ← query (λ _. item "wayland_display" session)
    V.print ("Wayland display:\t" <> wayland_display)

  unfoldable pub print_session : (String → Option String) → String → Session → M State NoneType
  print_session find_address vendor_type [] = print_stopped vendor_type
  print_session find_address vendor_type (entry ∷ rest) =
      print_running find_address vendor_type (entry ∷ rest)

  unfoldable pub print_status : (String → Option String) → M State NoneType
  print_status find_address = do
    cfg ← load H
    vendor_type ← Config.get "vendor_type" cfg
    try_except
        (do
          V.container_service
          session ← V.get_session
          print_session find_address vendor_type session)
        (λ e. if is_caught false e then some (print_stopped vendor_type) else none)
