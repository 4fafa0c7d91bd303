-- ===== src/Prelude/Dict.antt =====
-- Python's `dict` with `str` keys: an association list in insertion order. `Sorted` is `sorted`.
mod Defs
pub mod Sorted
unfoldable pub use Defs.*
