-- ===== src/Examples.antt =====
-- The theorems at concrete machines, daemons and configurations.
mod Everything
mod Broken
mod Commands
mod Killing
mod Translating
mod Initializing
mod Releases
mod Daemon
mod Storage
mod Upgrades
mod Nodes
mod Owners
mod Upgrading
