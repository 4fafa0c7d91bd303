-- ===== src/Fluids.antt =====
-- python/feldspar/fluids: the network solver.
pub mod Network
pub mod Tests
