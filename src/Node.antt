-- ===== src/Node.antt =====
-- node: the web node.
pub mod Context
pub mod Request
pub mod Filter
pub mod Render
pub mod Language
mod Tests
