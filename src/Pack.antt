-- ===== src/Pack.antt =====
-- python/feldspar/pack: the models that answer another program's claims by the engine.
pub mod Margin
pub mod Queries
pub mod Corners
pub mod Catalog
pub mod Payloads
mod Tests
