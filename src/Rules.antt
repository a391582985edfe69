-- ===== src/Rules.antt =====
-- The rule editor (components/rules/RulesWorkspace.tsx).
pub mod Tokens
pub mod Form
