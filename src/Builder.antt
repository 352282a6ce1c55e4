-- ===== src/Builder.antt =====
-- pkg/filetree/builder.go: a file enters the tree and the index together.
pub mod Agrees
use stereoscope.Errors.{ok, err, Act}
use stereoscope.File.Kinds.{FileType, sym_link, hard_link, directory}
use stereoscope.File.Metadata.{Metadata}
use stereoscope.File.Refs.{Reference}
use stereoscope.FileTree.Edit.{Files, add_file, add_sym_link, add_hard_link, add_dir}
use stereoscope.Index
use stereoscope.Index.{FileIndex}

-- `Builder`
pub record Builder : Type 0 where
  pub files : Files
  pub index : FileIndex

-- The branch of `Add` that the kind of the file takes.
unfoldable pub add_to_tree : FileType → Metadata → Act Files Reference
add_to_tree sym_link m = add_sym_link m.path m.link_destination
add_to_tree hard_link m = add_hard_link m.path m.link_destination
add_to_tree directory m = add_dir m.path
add_to_tree _ m = add_file m.path

-- `Add`. A tree that adds returns a reference, so the source's test for a nil one never fails.
unfoldable pub add : Metadata → Act Builder Reference
add m b =
    let (r, files) = add_to_tree m.file_type m b.files in
    elim r [
      | err e ↦ (err e, record b { files = files })
      | ok ref ↦ (ok ref, record { files = files; index = Index.add ref m b.index })
    ]
