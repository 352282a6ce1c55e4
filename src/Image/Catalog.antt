-- ===== src/Image/Catalog.antt =====
-- pkg/image/file_catalog.go: the index of all files of an image, with the layer and the opener of each. A layer
-- is known by its place in the image.
use stereoscope.Errors.{Result, ok, err, not_in_catalog, no_contents}
use stereoscope.File.LazyReader.{LazyReader}
use stereoscope.File.Metadata.{Metadata}
use stereoscope.File.Refs.{Reference}
use stereoscope.File.Tar.{TarIndexEntry, open_entry}
use stereoscope.Go.Maps.{GoMap, get, put}
use stereoscope.Index
use stereoscope.Index.{FileIndex, new_index}
use stereoscope.Prelude.{ℕ, [], Option, none, some, Str, nat_eq}

-- A `file.Opener`: that of an entry of a layer's archive, or of a path of a squashfs.
pub data Opener : Type 0 where
  tar_entry : TarIndexEntry → Opener
  squashfs_path : Str → Opener

-- What an opener returns.
pub data Contents : Type 0 where
  lazy_reader : LazyReader → Contents
  squashfs_file : Str → Contents

-- `FileCatalog`; an opener may be nil.
pub record FileCatalog : Type 0 where
  pub index : FileIndex
  pub layer_by_id : GoMap ℕ ℕ
  pub opener_by_id : GoMap ℕ (Option Opener)

-- `NewFileCatalog`
abbrev pub new_file_catalog : FileCatalog
new_file_catalog = record { index = new_index; layer_by_id = []; opener_by_id = [] }

-- `addImageReferences`
unfoldable pub add_image_references : ℕ → ℕ → Option Opener → FileCatalog → FileCatalog
unfolding put
add_image_references id layer opener c = record c {
  layer_by_id = put id layer c.layer_by_id;
  opener_by_id = put id opener c.opener_by_id;
}

-- `Add`
unfoldable pub add : Reference → Metadata → ℕ → Option Opener → FileCatalog → FileCatalog
unfolding add_image_references Index.add
add f m layer opener c =
    add_image_references f.id layer opener (record c { index = Index.add f m c.index })

-- `Layer`
unfoldable pub layer_of : Reference → FileCatalog → Option ℕ
unfolding get
layer_of f c = get f.id c.layer_by_id

abbrev pub run_opener : Opener → Contents
run_opener (tar_entry e) = lazy_reader (open_entry e)
run_opener (squashfs_path p) = squashfs_file p

-- `Open`
unfoldable pub open_reference : Reference → FileCatalog → Result Contents
unfolding get
open_reference f c = elim (get f.id c.opener_by_id) [
  | none ↦ err (not_in_catalog f.real_path)
  | some none ↦ err (no_contents f.real_path)
  | some (some opener) ↦ ok (run_opener opener)
]
