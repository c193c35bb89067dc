-- ===== src/Lxc.antt =====
-- tools/helpers/lxc.py
pub mod Control
pub mod Session
pub mod Nodes
pub mod Setup
pub mod BaseProps
pub mod Shell
