-- ===== src/Fea.antt =====
-- The refinement ladder of the finite-element solvers (python/feldspar/fea).
pub mod Richardson
pub mod Ladder
mod Tests
