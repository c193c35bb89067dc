-- ===== src/Examples/Everything.antt =====
-- For the examples: its line unfolds the functions of all parts.
use waydroid.Apps.{
  is_caught, thawed, in_session, on_platform, install_package, remove, print_app, list_apps,
  maybe_launch_later, hide_bars, just_launch, launch, show_intent, just_intent, intent, refresh,
  just_show, show_full_ui, print_prop, prop_get, prop_set, print_stopped, print_running,
  print_session, print_status,
}
use waydroid.Apps
use waydroid.Arch.{architectures, remap_x86, maybe_remap, host}
use waydroid.ArmTranslation.{required, native_bridge_props, is_installed, sync_to_overlay}
use waydroid.ArmTranslation.Manage.{
  extract_archive, has_artifacts, first_candidate, find_root, copy_entry, copy_to_system_tree,
  settings_of_config, regenerate_base_props, place_source, place_tree, place_archive, verify,
  place_default, fetch_given, place_given, place, demand_layout, uninstall,
}
use waydroid.ArmTranslation.Manage
use waydroid.Base.Dict.{lookup, has_key, insert, erase, item}
use waydroid.Base.{◌>>=◌, ◌>>◌, try_except, except_any, try_finally, for_each}
use waydroid.Base.{option_eq, string_eq, nat_eq}
use waydroid.Base.Int.{int}
use waydroid.Base.Text.{
  is_space, lstrip, rstrip, strip, words, lines, splitlines, split, join, unlines, ends_with,
  remove_suffix, str, partition, drop_text, split_once, has_char, path_join,
}
use waydroid.Base.Text
use waydroid.CommandLine.{
  dispatch, handler_of, needs_initialized, action_need_root, chosen_log, log_path, follow_log,
  launch_first, init_action, handle_entry, dispatch_action, dispatch_initialized, prepare,
  make_work, fail, main_at,
}
use waydroid.CommandLine
use waydroid.CommandLine.Guards.{is_privileged}
use waydroid.Config.{
  config_keys, defaults, channels_defaults, channels_config_keys, fill, section_of, complete,
  complete_channels, get?, set, loaded, load, load_channels, save,
}
use waydroid.Config
use waydroid.Config.Interpolation.{is_interpolable, check_values}
use waydroid.Container.Bus.{owns, require_initialized, validate_session_owner, report, get_session}
use waydroid.Container.Bus
use waydroid.Container.Daemon.{
  lift, hwbinder_driver, prepare_drivers, prepare_drivers_once, bring_up, start_session, do_start,
  tear_down, untrack, stop_body,
}
use waydroid.Container.Daemon
use waydroid.Container.Devices.{
  system_devices, app_devices, path_mode, owner_of, default_devices, permit, set_permissions,
}
use waydroid.Container.Steps.{
  poll, wait_for_status, start_cgroup_lite_if_available, umount_attempts, remove_probe,
  keep_schedtune_if_nestable, waydroid_net_script, start_networking, stop_networking, start_sensors,
  stop_sensors,
}
use waydroid.Container.Steps
use waydroid.Container.Waiting.{after_polls}
use waydroid.Drivers.{
  binder_drivers, vndbinder_drivers, hwbinder_drivers, binder_ctl_add, drop_last,
  is_binderfs_loaded, alloc_binder_nodes, missing_nodes, probe_binder_driver, probe_ashmem_driver,
  last_node, setup_binder_nodes, load_binder_nodes,
}
use waydroid.Gpu.{
  sorted, vulkan_drivers, get_kernel_driver, first_supported, render_node, get_minor,
  get_card_from_render, generation, is_old_intel, get_vulkan_driver,
}
use waydroid.Gpu
use waydroid.Hardware.{reboot, tracked_session, take_down, put_up, wait_stopped, shutdown_request}
use waydroid.Hardware
use waydroid.Images.Integrity.{first_newer, install_offered}
use waydroid.Images.Rootfs.{full_props, make_prop, mount_rootfs, umount_rootfs}
use waydroid.Images.Update.{
  to_int, remove_overlay, reject, unpack, install_build, install_first, update_channel, validate,
  replace_image,
}
use waydroid.Images.Update
use waydroid.Initializer.{
  vendor_of_vndk, vendor_of_api, vendor_type_of, is_initialized, get_vendor_type,
}
use waydroid.Initializer.Init.{
  current_status, own_session, halt_own, halt_session, halt_remote, halt, fetch_images,
  make_missing, make_tree, prepare_host, resume, init_prepared, init,
}
use waydroid.Initializer.Remote.{
  request_of, same_item, no_auth, exit_code, signal_of, ensure_polkit_auth, on_host, end_running,
  remote_init_server, init_call, cancel, remote_init_proc_entry,
}
use waydroid.Initializer.Remote
use waydroid.Initializer.Setup.{
  ask_channels, fill_request, system_ota_of, vendor_ota_of, describe_host, without_channels,
  forget_time, with_channels, image_exists, has_images, find_preinstalled, first_vendor,
  use_preinstalled, use_channels, use_request, setup_config,
}
use waydroid.Lxc.BaseProps.{
  rstrip_nul, lines_of, drop_matching, override, override_all, fallback_graphics, has_library,
  library_dirs, first_hal, find_hal, find_service, find_gralloc, graphics, graphics_props,
  find_vulkan, camera_props, opengles_prop, update_props, product_prop, product_props, host_props,
  make_base_props,
}
use waydroid.Lxc.BaseProps.Overrides.{without}
use waydroid.Lxc.Control.{status, wait_for_running}
use waydroid.Lxc.Control
use waydroid.Lxc.Nodes.{
  device_nodes, binder_nodes, vendor_nodes, system_nodes, entries, globbed, all_nodes, nodes_for,
  generate_nodes_lxc_config, permission_files, setup_host_perms,
}
use waydroid.Lxc.Session.{
  dist_of, node_entry, is_illegal, session_nodes, generate_session_lxc_config,
}
use waydroid.Lxc.Setup.{
  first_char, digit_value, get_lxc_version, asks, get_apparmor_status, snippet, config_snippets,
  cat_command, write_nodes, set_lxc_config,
}
use waydroid.Lxc.Shell.{
  android_env, split_export, add_exports, set_vars, identity_options, privilege_options,
  context_options, command_of, attach_command, local_env, android_env_attach_options, run_attached,
  shell_in, shell, logcat,
}
use waydroid.Lxc.Shell
use waydroid.Mount.{
  text_le, sort_reverse, points, ismount, umount_all_list, umount_all, bind, bind_file, mount,
  mount_overlay,
}
use waydroid.Net.{get_device_ip_address, adb_connect, adb_disconnect}
use waydroid.Props.{is_comment, value_of, file_get, host_get, host_list, host_set}
use waydroid.Protocol.{protocols, set_aidl_version}
use waydroid.Release.Channels.{
  latest, demand_sum, demand_key, chosen_of, pick, response, parse_official_channel, asset_matches,
  release_asset_url, asset_of_kind, vendor_asset, names_of, community_build, both_builds, builds_of,
  parse_community_releases, vendor_of, resolve_official, resolve_community, resolve_builds,
}
use waydroid.Release.Package.{
  stamp_or_latest, zip_name, sort, files_in, checksum_files, depth, insert_deepest, sort_deepest,
  candidates, mismatch, verify_sum, download, extract_images, checksum_lines, write_checksums,
  fill_staging, pack, assemble_package, has_prebuilts, first_root, find_prebuilts_root,
  reject_archive, verify_archive, unpack_archive, prepare_arm_translation, log_sum, stage_image,
  prepare_arm_dir, build_package,
}
use waydroid.Release.Package
use waydroid.Run.{
  sanity_checks, check_return_code, core, user, run, run_unchecked, run_output,
  run_output_unchecked, run_background,
}
use waydroid.Run.Kill.{kill_process_tree, ppid_of, ppids_of, kill_command}
use waydroid.Services.{runs_again}
use waydroid.Services
use waydroid.Sessions.{
  density_of, socket_path, session_of, get_session_defaults, display_of, density, make_data,
  log_reason, ask_container, keep, start_at, start_with_socket, do_stop, stop_container,
  end_session,
}
use waydroid.Sessions
use waydroid.Upgrade.{
  at_most, chmod_paths, node_defaults, add_missing, lacks_any, tighten, secure_adb, keep_nodes,
  migrate_from, migration,
}
use waydroid.Upgrade.Laws.{due, due_from}
use waydroid.Upgrade.Whole.{
  get_config, ask_stop, halt_running, halt_any, refresh_host, renew, start_again, upgrade_halted,
}
use waydroid.Upgrade.Whole
use waydroid.Version.{le_ℤ, le_tuple, versiontuple, kernel_version}

unfoldable pub everything : Unit {0}
unfolding is_caught thawed in_session on_platform install_package remove print_app list_apps
    maybe_launch_later hide_bars just_launch launch show_intent just_intent intent refresh just_show
    show_full_ui print_prop prop_get prop_set print_stopped print_running print_session print_status
    Apps.install architectures remap_x86 maybe_remap host required native_bridge_props is_installed
    sync_to_overlay extract_archive has_artifacts first_candidate find_root copy_entry
    copy_to_system_tree settings_of_config regenerate_base_props place_source place_tree
    place_archive verify place_default fetch_given place_given place demand_layout uninstall
    Manage.install lookup has_key insert erase item ◌>>=◌ ◌>>◌ try_except except_any try_finally
    for_each option_eq string_eq nat_eq int is_space lstrip rstrip strip words lines splitlines
    split join unlines ends_with remove_suffix str partition drop_text split_once has_char path_join
    Text.replace dispatch handler_of needs_initialized action_need_root chosen_log log_path
    follow_log launch_first init_action handle_entry dispatch_action dispatch_initialized prepare
    make_work fail main_at CommandLine.handle CommandLine.main is_privileged config_keys defaults
    channels_defaults channels_config_keys fill section_of complete complete_channels get? set
    loaded load load_channels save Config.get is_interpolable check_values owns require_initialized
    validate_session_owner report get_session Bus.start Bus.stop Bus.freeze Bus.unfreeze Bus.handle
    Bus.serve lift hwbinder_driver prepare_drivers prepare_drivers_once bring_up start_session
    do_start tear_down untrack stop_body Daemon.stop system_devices app_devices path_mode owner_of
    default_devices permit set_permissions poll wait_for_status start_cgroup_lite_if_available
    umount_attempts remove_probe keep_schedtune_if_nestable waydroid_net_script start_networking
    stop_networking start_sensors stop_sensors Steps.restart Steps.freeze Steps.unfreeze after_polls
    binder_drivers vndbinder_drivers hwbinder_drivers binder_ctl_add drop_last is_binderfs_loaded
    alloc_binder_nodes missing_nodes probe_binder_driver probe_ashmem_driver last_node
    setup_binder_nodes load_binder_nodes sorted vulkan_drivers get_kernel_driver first_supported
    render_node get_minor get_card_from_render generation is_old_intel get_vulkan_driver
    Gpu.basename reboot tracked_session take_down put_up wait_stopped shutdown_request
    Hardware.upgrade first_newer install_offered full_props make_prop mount_rootfs umount_rootfs
    to_int remove_overlay reject unpack install_build install_first update_channel validate
    replace_image Update.get Update.replace vendor_of_vndk vendor_of_api vendor_type_of
    is_initialized get_vendor_type current_status own_session halt_own halt_session halt_remote halt
    fetch_images make_missing make_tree prepare_host resume init_prepared init request_of same_item
    no_auth exit_code signal_of ensure_polkit_auth on_host end_running remote_init_server init_call
    cancel remote_init_proc_entry Remote.is_allowed ask_channels fill_request system_ota_of
    vendor_ota_of describe_host without_channels forget_time with_channels image_exists has_images
    find_preinstalled first_vendor use_preinstalled use_channels use_request setup_config rstrip_nul
    lines_of drop_matching override override_all fallback_graphics has_library library_dirs
    first_hal find_hal find_service find_gralloc graphics graphics_props find_vulkan camera_props
    opengles_prop update_props product_prop product_props host_props make_base_props without status
    wait_for_running Control.start Control.stop Control.freeze Control.unfreeze device_nodes
    binder_nodes vendor_nodes system_nodes entries globbed all_nodes nodes_for
    generate_nodes_lxc_config permission_files setup_host_perms dist_of node_entry is_illegal
    session_nodes generate_session_lxc_config first_char digit_value get_lxc_version asks
    get_apparmor_status snippet config_snippets cat_command write_nodes set_lxc_config android_env
    split_export add_exports set_vars identity_options privilege_options context_options command_of
    attach_command local_env android_env_attach_options run_attached shell_in shell logcat
    Shell.is_allowed text_le sort_reverse points ismount umount_all_list umount_all bind bind_file
    mount mount_overlay get_device_ip_address adb_connect adb_disconnect is_comment value_of
    file_get host_get host_list host_set protocols set_aidl_version latest demand_sum demand_key
    chosen_of pick response parse_official_channel asset_matches release_asset_url asset_of_kind
    vendor_asset names_of community_build both_builds builds_of parse_community_releases vendor_of
    resolve_official resolve_community resolve_builds stamp_or_latest zip_name sort files_in
    checksum_files depth insert_deepest sort_deepest candidates mismatch verify_sum download
    extract_images checksum_lines write_checksums fill_staging pack assemble_package has_prebuilts
    first_root find_prebuilts_root reject_archive verify_archive unpack_archive
    prepare_arm_translation log_sum stage_image prepare_arm_dir build_package Package.basename
    Package.main sanity_checks check_return_code core user run run_unchecked run_output
    run_output_unchecked run_background kill_process_tree ppid_of ppids_of kill_command runs_again
    Services.start Services.stop density_of socket_path session_of get_session_defaults display_of
    density make_data log_reason ask_container keep start_at start_with_socket do_stop
    stop_container end_session Sessions.serve Sessions.start Sessions.stop at_most chmod_paths
    node_defaults add_missing lacks_any tighten secure_adb keep_nodes migrate_from migration due
    due_from get_config ask_stop halt_running halt_any refresh_host renew start_again upgrade_halted
    Whole.restart Whole.upgrade le_ℤ le_tuple versiontuple kernel_version
everything = tt
