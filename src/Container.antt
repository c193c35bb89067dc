-- ===== src/Container.antt =====
-- tools/actions/container_manager.py: the daemon that owns the container.
pub mod Devices
pub mod Steps
pub mod Daemon
pub mod Bus
pub mod Isolation
pub mod Waiting
pub mod Freezing
pub mod Tracking
pub mod Admission
pub mod Keeping
pub mod Specification
pub mod Refinement
pub mod Ownership
