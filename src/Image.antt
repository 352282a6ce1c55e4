-- ===== src/Image.antt =====
-- pkg/image: the platforms that images are chosen by, the catalog of files, layers and images.
pub mod Platform
pub mod Catalog
pub mod Layer
pub mod Metadata
pub mod Images
pub mod Registry
pub mod PullStatus
pub mod Containerd
pub mod Docker
pub mod Oci
