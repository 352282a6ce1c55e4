-- ===== src/Image/Docker.antt =====
-- pkg/image/docker: images from a docker daemon and from its archives. Logs and the progress of a save are left out.
pub mod Pulls
pub mod Shown
pub mod Manifest
pub mod Sized
pub mod Daemon
pub mod Named
pub mod Saves
pub mod Provided
