-- ===== src/Builder/Agrees.antt =====
-- `Builder.Add` of pkg/filetree/builder.go: the tree and the index after it.
use stereoscope.Builder.{Builder, add_to_tree, add}
use stereoscope.Errors.{Result, ok, err}
use stereoscope.File.Kinds.{
  FileType, regular, hard_link, sym_link, character_device, block_device, directory, fifo, socket,
  irregular,
}
use stereoscope.File.Metadata.{Metadata}
use stereoscope.File.Paths.Canonical.{IsCanonical}
use stereoscope.File.Refs.{Reference}
use stereoscope.FileTree.Adds.{Outcome, Added, adds-Outcome}
use stereoscope.FileTree.Edit.{Files}
use stereoscope.FileTree.Keyed.{IsKeyed}
use stereoscope.Index
use stereoscope.Index.{FileIndex, get_entry}
use stereoscope.Index.Queries.{get_entry-add}
use stereoscope.Prelude.{◌≡◌, refl}

-- The kind of the node for a file: whatever is no link and no directory is a regular file in the tree.
abbrev pub kind_in_tree : FileType → FileType
kind_in_tree sym_link = sym_link
kind_in_tree hard_link = hard_link
kind_in_tree directory = directory
kind_in_tree _ = regular

-- What `Add` has done when it returns a reference.
pub record Built (m : Metadata) (r : Reference) (b b' : Builder) : Type 0 where
  pub in_tree : Added (kind_in_tree m.file_type) m.path r b.files b'.files
  pub in_index : get_entry r b'.index ≡ ok (record { reference = r; metadata = m })

-- What `Add` leaves: on an error the index is as it was, and every node is where it was.
abbrev pub BuildOutcome : Metadata → Builder → Result Reference × Builder → Type 0
BuildOutcome m b (ok r, b') = Built m r b b'
BuildOutcome m b (err e, b') =
    (b'.index ≡ b.index) × Outcome regular m.path b.files (err e, b'.files)

pub add_to_tree-Outcome :
    (kind : FileType) (m : Metadata) (s : Files)
    → IsCanonical m.path
    → IsKeyed s.tree
    → Outcome (kind_in_tree kind) m.path s (add_to_tree kind m s)
unfolding add_to_tree
add_to_tree-Outcome sym_link m s c k = (adds-Outcome m.path m.link_destination s c k).2
add_to_tree-Outcome hard_link m s c k = (adds-Outcome m.path m.link_destination s c k).3
add_to_tree-Outcome directory m s c k = (adds-Outcome m.path m.link_destination s c k).1
add_to_tree-Outcome regular m s c k = (adds-Outcome m.path m.link_destination s c k).0
add_to_tree-Outcome character_device m s c k = (adds-Outcome m.path m.link_destination s c k).0
add_to_tree-Outcome block_device m s c k = (adds-Outcome m.path m.link_destination s c k).0
add_to_tree-Outcome fifo m s c k = (adds-Outcome m.path m.link_destination s c k).0
add_to_tree-Outcome socket m s c k = (adds-Outcome m.path m.link_destination s c k).0
add_to_tree-Outcome irregular m s c k = (adds-Outcome m.path m.link_destination s c k).0

-- `Add` of a file with a canonical path, to a tree with every node under its own path: if it returns a
-- reference, the tree has a node of the file's kind with that reference at the path, keeps every other node, and
-- the index has the file under that reference; if it fails, the index is as it was and all nodes stay.
pub add-BuildOutcome :
    (m : Metadata) (b : Builder)
    → IsCanonical m.path
    → IsKeyed b.files.tree
    → BuildOutcome m b (add m b)
unfolding add
add-BuildOutcome m b c k =
    go (add_to_tree m.file_type m b.files) (add_to_tree-Outcome m.file_type m b.files c k)
  where
    go :
        (x : Result Reference × Files)
        → Outcome (kind_in_tree m.file_type) m.path b.files x
        → BuildOutcome m b (elim x.0 [
          | err e ↦ (err e, record b { files = x.1 })
          | ok ref ↦ (ok ref, record { files = x.1; index = Index.add ref m b.index })
        ])
    go (ok r, s) h = record { in_tree = h; in_index = get_entry-add r m b.index }
    go (err e, s) h = (refl, h)
