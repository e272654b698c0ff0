-- ===== src/Plugins.antt =====
-- The smaller plugins (src/service/plugins).
pub mod Desktops
pub mod Scripts
pub mod Shortcuts
pub mod Following
pub mod Spies
pub mod Templates
pub mod Bookmarks
