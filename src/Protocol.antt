-- ===== src/Protocol.antt =====
-- tools/helpers/protocol.py: the binder protocols of an Android version.
use waydroid.Base.{
  String, ◌<>◌, Result, ok, raised, M, NoneType, query, pure, none, some, value_error,
}
use waydroid.Base.{then_result, except_any, ◌>>=◌, if◌then◌else◌}
use waydroid.Base.Int.{ℤ, pos, int, ltb_ℤ}
use waydroid.Config
use waydroid.Config.{rootfs, load, save}
use waydroid.Host.{Host}
use waydroid.Props.{file_get}

-- The protocols of binder and of the service manager.
unfoldable pub protocols : ℤ → String × String
protocols android_api =
    if ltb_ℤ android_api 28
    then ("aidl", "aidl")
    else if ltb_ℤ android_api 30
    then ("aidl2", "aidl2")
    else if ltb_ℤ android_api 31
    then ("aidl3", "aidl3")
    else if ltb_ℤ android_api 33
    then ("aidl4", "aidl3")
    else if ltb_ℤ android_api 35
    then ("aidl3", "aidl3")
    else if ltb_ℤ android_api 36
    then ("aidl3", "aidl5")
    else ("aidl3", "aidl6")

to_int : String → Result ℤ
to_int text = elim (int text) [ none ↦ raised (value_error text) | some i ↦ ok i ]

module _ (H : Host) where
  open H use {State}

  unfoldable pub set_aidl_version : M State NoneType
  unfolding to_int
  set_aidl_version = do
    cfg ← load H
    android_api ←
        except_any
          (query (λ s.
            then_result (file_get H (rootfs <> "/system/build.prop") "ro.build.version.sdk" s)
              to_int))
          (λ _. pure (pos 0))
    let (binder_protocol, sm_protocol) = protocols android_api
    save H (
        Config.set "service_manager_protocol" sm_protocol
          (Config.set "binder_protocol" binder_protocol cfg))
