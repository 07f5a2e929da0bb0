-- ===== src/ActorGraph/Render.antt =====
-- The DOT output of rsactor-graph/src/render.rs.
pub mod Escape
pub mod Labels
pub mod Groups
pub mod Dot
