-- ===== src/Solve.antt =====
-- python/feldspar/solve: solver metadata, the error unions, the registry, the pack loader and cost
-- curves.
pub mod Models
pub mod Errors
pub mod Registry
pub mod Packs
pub mod Seeking
pub mod Tests
