-- ===== src/Tests.antt =====
-- Tests on concrete inputs, and the theorems applied at inputs where their hypotheses hold.
mod Case
mod Rules
mod Archive
mod Presets
mod Pages
mod Media
mod Session
mod Review
mod Dashboard
mod Service
mod Workspace
mod Panel
mod Listing
mod Backups
mod Placement
