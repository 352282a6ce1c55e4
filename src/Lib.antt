-- ===== src/Lib.antt =====
-- Verification of stereoscope, a library that reads container images: their layers, the file trees of the
-- layers, their union, the index of their files, and the searches.
--
-- The program. A layer is read from a tar archive; each entry becomes a `Metadata` with an absolute path
-- (pkg/file). A `Builder` adds it to the file tree of the layer and, under the reference that the tree gives it,
-- to an index (pkg/filetree). A file tree is a tree of pkg/tree whose nodes are file nodes, known by their
-- paths. A union of the layers is squashed: each upper tree is merged into a copy of the trees below, which
-- honours whiteouts. Lookups in a tree follow symbolic and hard links; lookups in an index go by kind, MIME
-- type, extension and basename. A glob is parsed into requests for these lookups.
--
-- Prelude holds what all modules share: native numbers, tests, options, lists, strings as lists of bytes, and
-- equality as an instance. Errors holds the errors of the program as data, a result type with its bind, and
-- `Act`, a step that returns a result with a state. The modules below Go model what the source uses of Go's
-- standard library: maps as association lists (Go/Maps), strings, sort, and path.
--
-- File models pkg/file: Paths is path.go, Sets is id_set.go (and path_set.go, and pkg/tree/node/id.go, which are
-- the same code over another key), CountSet is `PathCountSet` of path_set.go, Refs is reference.go, id.go and
-- resolution.go, Metadata is metadata.go, Kinds is type.go. Tree models pkg/tree: Tree is tree.go, Tree/Remove
-- is `RemoveNode`, and Tree/Walk is depth_first_walker.go. FileTree models pkg/filetree: FileTree/Nodes is
-- filenode/filenode.go, link_strategy.go and node_access.go; of filetree.go, FileTree/Resolve is
-- `resolveAncestorLinks` and `resolveNodeLinks`, FileTree/Lookup is `node`, `file`, `File` and `HasPath`,
-- FileTree/Edit is the additions and removals, FileTree/Merge is `Merge`, with `Squash` of union_filetree.go,
-- FileTree/Listings is `AllFiles`, `ListPaths`, `PathDiff` and `Equal`, FileTree/Globbing is glob.go with
-- `FilesByGlob`, and FileTree/PathWalk is depth_first_path_walker.go. Glob is glob_parser.go, Index is index.go,
-- Builder is builder.go, Search is search.go, with Search/Context for its context, and Search/Paths for its
-- search for all paths to a node.
--
-- File/Tar is tarutil.go, tar_index.go and tar_index_entry.go, File/Tar/Untar is `UntarToDirectory`, and
-- File/LazyReader is lazy_bounded_read_closer.go. Image models pkg/image: Image/Platform is platform.go,
-- Image/Catalog is file_catalog.go, Image/Layer is layer.go and layer_metadata.go, Image/Metadata is
-- image_metadata.go and the options of image.go, Image/Images is the rest of image.go and content_helpers.go,
-- Image/Registry is registry_credentials.go and the selection of registry_options.go, Image/Registry/Tls is its
-- `TLSConfig`, and Image/PullStatus is docker/pull_status.go. Of the providers, Image/Docker/Pulls and
-- Image/Docker/Daemon are docker/daemon_provider.go with parse_reference.go, Image/Docker/Manifest is
-- docker/manifest.go and docker/tarball_provider.go, Image/Containerd/Provider is containerd/daemon_provider.go,
-- with the API that it uses in Image/Containerd/Api, Image/Containerd/Jobs, ApiState and PullStatus are the
-- files of these names beside it, with `update` of api_state.go in Image/Containerd/Update, and Image/Oci is oci/registry_provider.go, oci/directory_provider.go and
-- oci/tarball_provider.go. Client is client.go, option.go, providers.go and deprecated.go: it makes the
-- providers, selects those of a source, and asks one after another for an image; the providers for daemons save
-- an image to an archive, whose provider reads it. An image reads its layers in order; each layer reads its
-- archive through the tar index into a builder, whose index is that of the catalog; then the trees are squashed.
--
-- The other modules hold theorems and are named for what they are about, and Tests holds runs on small inputs.
--
-- State. A Go map is an association list in some order; code that ranges over a map is modelled in the order of
-- the list. A file tree is a value that an operation takes and returns, on an error too; the counter of file IDs
-- is passed along, modulo 2 ^ 64. A nil pointer is `none`. Every write to a node goes to the map of nodes; the
-- pointers in the maps of children and parents are read for their identities alone. A nil set of paths that are
-- being resolved stays nil in the caller, as in Go.
--
-- Bounds and fuel. The resolution of links counts down `maxLinkResolutionDepth`, 100, as the source does, and
-- needs no fuel. `RemoveNode` runs on fuel that is more than the length of the longest path, since a child has a
-- longer path than its parent. The walk of `Merge` runs on the weights of the roots: a node weighs one more than
-- its children, which have longer paths, so that each step of the walk makes the stack lighter. The search for
-- all paths to a node runs on two more than the number of nodes, since each call inside another one has observed
-- one node more. The walk over virtual paths takes its fuel as an argument. Running out of fuel is an error of
-- its own. The counts of a `PathCountSet` have no upper bound.
--
-- Libraries. The reader of archive/tar is the list of what it returns; an open file is its contents with an
-- offset; the file system that archives are unpacked to, the layers and images of go-containerregistry, the
-- progress of go-progress, the authenticators, and the matchers of doublestar and wildmatch-go are arguments. So
-- are the sets of go-collections, the API of docker and that of containerd, what go-containerregistry reads of
-- archives, directories and registries, JSON, tlsconfig and x509: each is a record of the functions that the
-- source calls, on a world where they act on one. What a daemon or a store answers between two calls of an
-- update is an argument of the update, since other goroutines go on between them. So is the MIME type of a
-- file's contents, and the name of the operating system that the program runs on. A set of strset is a map with no
-- values, like the sets of pkg/file/id_set.go. The functions of package strings that change case or trim blanks
-- are modelled on ASCII text. Reading the contents of an archive's entry does not fail.
--
-- Not modelled: the providers for podman and SIF, the clients of daemons, the walk of a squashfs inside its
-- library, the unbounded lazy reader, events and the progress that they show, the goroutine that updates a pull
-- of containerd every 100 ms, logs, and temporary directories. They are I/O and calls of libraries.
mod Prelude
pub mod Errors
mod Go
pub mod File
pub mod Tree
pub mod FileTree
pub mod Glob
pub mod Index
pub mod Builder
pub mod Search
pub mod Image
pub mod Client
mod Tests
