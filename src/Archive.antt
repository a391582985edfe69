-- ===== src/Archive.antt =====
-- The archive list (lib/archive-list-preferences.ts, lib/archive-view-presets.ts).
pub mod Preferences
pub mod Presets
pub mod Documents
pub mod Filters
pub mod Details
pub mod Panel
pub mod Listing
pub mod Columns
