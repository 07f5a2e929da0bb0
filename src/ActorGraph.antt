-- ===== src/ActorGraph.antt =====
-- The tool of rsactor-graph/src that draws which actors send what to which others.
pub mod Model
pub mod Output
pub mod Focus
pub mod Render
pub mod Types
pub mod Workspace
pub mod Syntax
pub mod Crates
pub mod Resolve
