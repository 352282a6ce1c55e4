-- ===== src/FileTree.antt =====
-- Package pkg/filetree over pkg/tree: nodes with paths, and the tree of a file system.
pub mod Nodes
pub mod Resolve
pub mod Lookup
pub mod Edit
pub mod Merge
pub mod Removes
pub mod Keyed
pub mod Squash
pub mod Parents
pub mod Adds
pub mod Grafts
pub mod Absent
pub mod Visits
pub mod Formed
pub mod Ends
pub mod Ancestors
pub mod Links
pub mod Reached
pub mod Found
pub mod Listings
pub mod Globbing
pub mod PathWalk
