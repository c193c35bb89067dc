-- ===== src/Lib.antt =====
-- Waydroid: a container of Android on a Linux host, its daemon and its command line.
--
-- The program is the Python package tools/. Its daemon, tools/actions/container_manager.py, serves
-- calls on D-Bus and keeps one session; it prepares the binder drivers, mounts the images, writes the
-- container's configuration and drives LXC. The helpers under tools/helpers do the single steps.
--
-- How the files correspond to the code:
-- - Host: what is asked of the operating system and of Python's modules: files, processes, time, HTTP,
--   SHA-256, ZIP archives, `configparser`. A record of operations over an unknown state, a parameter of
--   everything else; nothing is assumed of it. Host/Machine is one such host, for the examples.
-- - Base: results and exceptions (Effect), the rules for chains of calls (Refusal), dictionaries, texts
--   and `int` as Python has them.
-- - Config: tools/config/__init__.py, load.py and save.py.
-- - Run: tools/helpers/run.py and run_core.py, and the killing of a command with the processes below it
--   (Kill).
-- - Mount: tools/helpers/mount.py. Version: tools/helpers/version.py. Drivers: tools/helpers/drivers.py.
-- - Props, Protocol: tools/helpers/props.py and protocol.py.
-- - Images: tools/helpers/images.py, its updates (Update) and the root file system (Rootfs).
-- - Lxc: tools/helpers/lxc.py, driving the container (Control), its configuration (Setup), the host's
--   devices that it is given (Nodes), a session's mounts (Session), the properties that Android starts
--   with (BaseProps) and the shell in the container (Shell).
-- - Gpu, Arch, Net: tools/helpers/gpu.py, arch.py and net.py.
-- - ArmTranslation: tools/helpers/arm_translation.py; its installation (Manage) is
--   tools/actions/arm_translation.py. Services: tools/services/runner.py.
--   Hardware: the callbacks `reboot`, `upgrade` and `shutdownRequest` of hardware_manager.py there.
-- - Initializer: tools/actions/initializer.py, the choice of images and channels (Setup), `init` and
--   the worker (Init), and the service on D-Bus that starts the worker (Remote).
-- - Release: tools/release/package.py, which makes a package of the images of a channel: the lists of
--   the official channels and of the community's releases and the choice of builds (Channels), the
--   downloads and the package (Package). Tools is what it asks of Python's modules.
-- - CommandLine: tools/__init__.py, the table of the actions and `main`.
-- - Sessions: tools/actions/session_manager.py. Apps: app_manager.py, prop.py and status.py beside it.
-- - Upgrade: tools/actions/upgrader.py, the migration of an older configuration, and `upgrade` (Whole).
-- - Container: tools/actions/container_manager.py. Devices has the permissions, Steps what touches the
--   host only, Daemon the state and `do_start` and `stop`, Bus the D-Bus methods and the loop that
--   serves them. The children named for what they prove are about these.
-- - Examples: the theorems at concrete machines.
--
-- A call is a function from the state to a result and the new state, so what a call has changed by the
-- time it raises stays changed. Attributes of `args` and globals of a module that calls set are fields
-- of a record; `none` is an attribute that is not there. Logging is left out.
--
-- Loops are structural recursion, on the list or on the tries that the code counts: `wait_for_status`
-- has `timeout` of them, `wait_for_running` 10 and the unmounting of schedtune 3. Only `kill_process_tree`
-- has fuel: what is left of Python's stack, for which the height of the tree of processes is enough.
--
-- D-Bus and the services in Android are parameters where the session and the commands call them
-- (Desktop, Services), and so are the functions behind the table of the command line (Program), archives
-- (Archives) and the network.
--
-- The values of a configuration are those that `configparser` gives for an option, whose name is in
-- lower case there, as are all names that the program uses; a value that is set and that it would
-- refuse for a percent sign is refused (Config/Interpolation), and references in the others are left
-- as they stand.
--
-- Not modelled: threads of the service runner, D-Bus and gbinder themselves, the user interface, the
-- waiting for a command's output that has a time-out, sudo, the services of the session
-- (tools/services/user_manager.py and the clipboard and notification managers), the marshalling under
-- tools/interfaces, the parsing of the command line, logging and bug reports.
pub mod Apps
pub mod Arch
pub mod ArmTranslation
pub mod Base
pub mod CommandLine
pub mod Config
pub mod Container
pub mod Drivers
pub mod Examples
pub mod Gpu
pub mod Hardware
pub mod Host
pub mod Images
pub mod Initializer
pub mod Lxc
pub mod Mount
pub mod Net
pub mod Props
pub mod Protocol
pub mod Release
pub mod Run
pub mod Services
pub mod Sessions
pub mod Upgrade
pub mod Version
