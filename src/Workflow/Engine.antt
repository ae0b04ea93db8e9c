-- ===== src/Workflow/Engine.antt =====
-- The phase engine (src/workflow/engine.rs): its state, and its operations one by one.
mod State
mod Lifecycle
mod Counters
mod Advance
pub mod Invariant
pub mod Reach
pub mod Gating
pub mod Ceilings
unfoldable pub use State.*
unfoldable pub use Lifecycle.*
unfoldable pub use Counters.*
unfoldable pub use Advance.*
