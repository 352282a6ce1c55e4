-- ===== src/Go.antt =====
-- What the source uses of Go's standard library: maps, `strings`, `path` and `sort`.
pub mod Maps
pub mod Strings
pub mod Sort
pub mod Paths
