-- ===== src/Release.antt =====
-- tools/release/package.py: the script that builds a release package.
pub mod Channels
pub mod Tools
pub mod Package
pub mod Choice
pub mod Prebuilts
pub mod Community
pub mod Checked
