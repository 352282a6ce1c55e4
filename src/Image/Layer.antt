-- ===== src/Image/Layer.antt =====
-- pkg/image/layer.go and layer_metadata.go: the files of a layer enter its tree and the catalog of the image.
-- The sums of sizes stay far below 2^63 and are not cut off. Progress and logs are left out.
pub mod Catalogued
pub mod Reads
use stereoscope.Builder
use stereoscope.Errors.{
  Failure, Result, ok, err, Act, after, ◌>>=◌, panics, no_cache_directory, unknown_media_type,
}
use stereoscope.File.LazyReader.{LazyReader}
use stereoscope.File.Metadata.{Header, Metadata, new_metadata}
use stereoscope.File.Refs.{Reference}
use stereoscope.File.Tar.{TarStep, TarIndex, TarIndexEntry, open_entry, new_tar_index}
use stereoscope.FileTree.Edit.{Files, new_file_tree}
use stereoscope.FileTree.Nodes.{FileNode}
use stereoscope.Go.Maps.{GoMap, get, put, elem}
use stereoscope.Go.Paths.{clean, join_path}
use stereoscope.Image.Catalog.{FileCatalog, Opener, tar_entry, squashfs_path, add_image_references}
use stereoscope.Tree.{Tree}
use stereoscope.Prelude.{
  ℕ, zero, suc, ◌+◌, List, [], ◌∷◌, ◌++◌, Option, none, some, Bool, true, false, Str, codes, str_eq,
  byte_string_eq, if◌then◌else◌,
}

-- `LayerMetadata`
pub record LayerMetadata : Type 0 where
  pub index : ℕ
  pub digest : Str
  pub media_type : Str
  pub size : ℕ

-- A `v1.Layer` of go-containerregistry: its media type, and its contents. Those of an archive are what could be
-- read of it, with the error of the read; those of a squashfs are its walk, with the metadata and the size of
-- each path.
pub record SourceLayer : Type 0 where
  pub media_type : Result Str
  pub uncompressed : Result (List TarStep × Option Failure)
  pub squashfs_walk : Result (List (Str × Result (Metadata × ℕ)))

-- The layer's tree and catalog while they are filled.
pub record Reading : Type 0 where
  pub files : Files
  pub catalog : FileCatalog
  pub size : ℕ

-- What both visitors do with the metadata of a file.
unfoldable pub add_file_of_layer : ℕ → Metadata → ℕ → Opener → Act Reading (Unit {0})
unfolding add_image_references
add_file_of_layer layer m size opener s =
    let (r, b) = Builder.add m (record { files = s.files; index = s.catalog.index }) in
    let s1 = record s { files = b.files; catalog = record s.catalog { index = b.index } } in
    elim r [
      | err e ↦ (err e, s1)
      | ok ref ↦ (
        ok tt,
        record s1 {
          catalog = add_image_references ref.id layer (some opener) s1.catalog;
          size = s1.size + size;
        },
      )
    ]

-- `layerTarIndexer`; `mime_of` is `MIMEType` of what a reader gives.
unfoldable pub layer_tar_indexer : (LazyReader → Str) → ℕ → TarIndexEntry → Act Reading (Unit {0})
unfolding add_file_of_layer
layer_tar_indexer mime_of layer e =
    add_file_of_layer layer (new_metadata e.header (mime_of (open_entry e))) e.size (tar_entry e)

-- The path that `NewMetadataFromSquashFSFile` of pkg/file/metadata.go gives a file.
unfoldable pub squashfs_metadata : Str → Metadata → Metadata
unfolding clean join_path
squashfs_metadata path m = record m { path = clean (join_path (codes "/") path) }

-- `squashfsVisitor`, over the paths of a walk
unfoldable pub walk_squashfs : ℕ → List (Str × Result (Metadata × ℕ)) → Act Reading (Unit {0})
unfolding add_file_of_layer squashfs_metadata
walk_squashfs layer [] s = (ok tt, s)
walk_squashfs layer ((path, err e) ∷ rest) s = (err e, s)
walk_squashfs layer ((path, ok (m, size)) ∷ rest) s =
    after (add_file_of_layer layer (squashfs_metadata path m) size (squashfs_path path) s)
      (λ _. walk_squashfs layer rest)

nth : ℕ → List Str → Option Str
nth n [] = none
nth zero (x ∷ xs) = some x
nth (suc n) (x ∷ xs) = nth n xs

-- `newLayerMetadata`: too few digests are a panic.
unfoldable pub new_layer_metadata : List Str → SourceLayer → ℕ → Result LayerMetadata
unfolding nth
new_layer_metadata diff_ids layer idx = layer.media_type >>= λ media_type. elim (nth idx diff_ids) [
  | none ↦ err panics
  | some digest ↦ ok (record { index = idx; digest = digest; media_type = media_type; size = 0 })
]

-- The directory of the layers' archives, by their paths.
abbrev pub LayerCache : Type 0
LayerCache = GoMap Str (List TarStep)

-- The end of `uncompressedTarCache`: the file is there also if its copy fails.
unfoldable pub fill_cache :
    Str → Result (List TarStep × Option Failure) → Act LayerCache (List TarStep)
fill_cache path (err e) cache = (err e, cache)
fill_cache path (ok (steps, some e)) cache = (err e, put path steps cache)
fill_cache path (ok (steps, none)) cache = (ok steps, put path steps cache)

abbrev pub tar_path_of : Str → Str → Str
tar_path_of dir digest = join_path dir (digest ++ codes ".tar")

-- `uncompressedTarCache`, with the archive at the path that it returns
unfoldable pub uncompressed_tar_cache : Str → Str → SourceLayer → Act LayerCache (List TarStep)
unfolding fill_cache join_path get
uncompressed_tar_cache dir digest layer cache =
    if str_eq dir []
    then (err no_cache_directory, cache)
    else elim (get (tar_path_of dir digest) cache) [
      | some steps ↦ (ok steps, cache)
      | none ↦ fill_cache (tar_path_of dir digest) layer.uncompressed cache
    ]

-- `Layer`; the trees are nil until they are read and squashed.
pub record Layer : Type 0 where
  pub metadata : LayerMetadata
  pub tree : Tree FileNode
  pub squashed_tree : Option (Tree FileNode)

-- What the layers of an image share: the counter of file IDs, the catalog and the cache.
pub record Shared : Type 0 where
  pub next_id : ℕ
  pub catalog : FileCatalog
  pub cache : LayerCache

abbrev pub singularity_squashfs_layer : Str
singularity_squashfs_layer = codes "application/vnd.sylabs.sif.layer.v1.squashfs"

-- The layer after its files were read, and what the image keeps of that also if it failed.
unfoldable pub layer_read :
    LayerMetadata → LayerCache → Result (Unit {0}) × Reading → Result Layer × Shared
layer_read m cache (r, s) = (
  r >>= λ _.
      ok (record {
        metadata = record m { size = s.size };
        tree = s.files.tree;
        squashed_tree = none;
      }),
  record { next_id = s.files.next_id; catalog = s.catalog; cache = cache },
)

-- The layer's tree is new, and its size is counted from 0.
unfoldable pub start_reading : Shared → Reading
start_reading s = record {
  files = record { tree = new_file_tree; next_id = s.next_id };
  catalog = s.catalog;
  size = 0;
}

-- `mime_of` is `MIMEType`; `tar_types` are the media types of archives in go-containerregistry.
module _ (mime_of : LazyReader → Str) (tar_types : List Str) where
  -- The archive of a layer is read, once it is in the cache.
  unfoldable pub index_archive :
      Str → LayerMetadata → Shared → Result (List TarStep) × LayerCache → Result Layer × Shared
  unfolding layer_tar_indexer new_tar_index layer_read start_reading
  index_archive dir m s (err e, cache) = (err e, record s { cache = cache })
  index_archive dir m s (ok steps, cache) =
      let (done, filled) =
        new_tar_index (tar_path_of dir m.digest) (layer_tar_indexer mime_of m.index) steps
          (start_reading s) in
      layer_read m cache (done, filled.1)

  -- The branch of `Read` for archives.
  unfoldable pub read_archive : Str → LayerMetadata → SourceLayer → Act Shared Layer
  unfolding uncompressed_tar_cache index_archive
  read_archive dir m layer s =
      index_archive dir m s (uncompressed_tar_cache dir m.digest layer s.cache)

  -- The branch of `Read` for a squashfs.
  unfoldable pub read_squashfs : LayerMetadata → SourceLayer → Act Shared Layer
  unfolding walk_squashfs layer_read start_reading
  read_squashfs m layer s = elim layer.squashfs_walk [
    | err e ↦ (err e, s)
    | ok walk ↦ layer_read m s.cache (walk_squashfs m.index walk (start_reading s))
  ]

  -- `Read`
  unfoldable pub read_layer : List Str → Str → SourceLayer → ℕ → Act Shared Layer
  unfolding new_layer_metadata read_archive read_squashfs elem
  read_layer diff_ids dir layer idx s = elim (new_layer_metadata diff_ids layer idx) [
    | err e ↦ (err e, s)
    | ok m ↦
        if elem m.media_type tar_types
        then read_archive dir m layer s
        else if str_eq m.media_type singularity_squashfs_layer
        then read_squashfs m layer s
        else (err (unknown_media_type m.media_type), s)
  ]
