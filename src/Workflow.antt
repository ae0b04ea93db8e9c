-- ===== src/Workflow.antt =====
-- The `workflow` module: templates, gates and the phase engine (src/workflow/).
pub mod Template
pub mod Gate
pub mod Engine
