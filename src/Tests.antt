-- ===== src/Tests.antt =====
-- Runs of the model on small inputs.
mod Paths
mod Trees
mod Indexes
mod Globs
mod Readers
mod Merges
mod Images
mod Searches
mod Clients
mod Containerd
mod Providers
