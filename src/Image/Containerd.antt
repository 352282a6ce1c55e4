-- ===== src/Image/Containerd.antt =====
-- pkg/image/containerd: the state of a pull from a containerd daemon, and the provider.
pub mod Jobs
pub mod Api
pub mod Provider
pub mod Referred
pub mod Hosts
pub mod Resolved
pub mod ApiState
pub mod Update
pub mod PullStatus
pub mod Tracked
pub mod Listed
pub mod Settled
pub mod Completed
