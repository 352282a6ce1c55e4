-- ===== src/File.antt =====
-- Package pkg/file.
pub mod Paths
pub mod Kinds
pub mod Sets
pub mod CountSet
pub mod Refs
pub mod Metadata
pub mod Ancestors
pub mod Tar
pub mod LazyReader
