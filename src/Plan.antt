-- ===== src/Plan.antt =====
-- Planning and execution (python/feldspar/plan).
pub mod Models
pub mod StepCache
pub mod Step
pub mod Execute
pub mod Walk
pub mod Cache
pub mod Attempt
pub mod Solve
mod Tests
