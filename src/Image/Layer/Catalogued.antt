-- ===== src/Image/Layer/Catalogued.antt =====
-- The catalog against the trees of the layers, for pkg/image/layer.go: what is in the catalog is in a tree.
use mathlib.Core.Path.{subst}
use stereoscope.Builder
use stereoscope.Builder.{Builder, add_to_tree}
use stereoscope.Builder.Agrees.{kind_in_tree, add_to_tree-Outcome}
use stereoscope.Errors.{Result, ok, err, after-keeps}
use stereoscope.File.Ancestors.{new_metadata-IsCanonical}
use stereoscope.File.Kinds.{
  FileType, regular, hard_link, sym_link, character_device, block_device, directory, fifo, socket,
  irregular,
}
use stereoscope.File.LazyReader.{LazyReader}
use stereoscope.File.Metadata.{Metadata, new_metadata}
use stereoscope.File.Paths.{FilePath}
use stereoscope.File.Paths.Canonical.{IsCanonical, clean-IsCanonical}
use stereoscope.File.Refs.{Reference}
use stereoscope.File.Tar.{TarStep, TarIndex, TarFileEntry, index_visitor, index_at, new_tar_index}
use stereoscope.File.Tar.Untar.{iterate_tar-keeps}
use stereoscope.FileTree.Adds.{Outcome, Added}
use stereoscope.FileTree.Edit.{Files, add_file, add_dir, add_sym_link, add_hard_link}
use stereoscope.FileTree.Formed.{IsFormed, add_kind-Kept}
use stereoscope.FileTree.Keyed.{HasNode}
use stereoscope.FileTree.Nodes.{FileNode, new_file, new_dir, new_sym_link, new_hard_link}
use stereoscope.Go.Maps.{get, put, get-put}
use stereoscope.Go.Paths.{clean, join_path}
use stereoscope.Go.Strings.{slash}
use stereoscope.Image.Catalog.{Opener, add_image_references}
use stereoscope.Image.Layer.{
  Reading, add_file_of_layer, layer_tar_indexer, squashfs_metadata, walk_squashfs,
}
use stereoscope.Index
use stereoscope.Index.{FileIndex, IndexEntry}
use stereoscope.Tree.{Tree}
use stereoscope.Prelude.{
  ℕ, ◌+◌, List, [], ◌∷◌, some, Str, str_eq, str_eq_iff, nat_eq, ◌==◌, Bool-cases, ◌≡◌, refl, sym,
  ◌∙◌, ◌⊎◌, inl, inr, arith,
}

-- A node of the tree has the reference of the entry.
abbrev pub Appears : Tree FileNode → IndexEntry → Type 0
Appears t entry =
    (q : FilePath) × ((n : FileNode) × HasNode t q n × (n.reference ≡ some entry.reference))

module _ (others : IndexEntry → Type 0) where
  -- The entries of an index are in the tree, or known from elsewhere.
  abbrev pub IsCatalogued : Tree FileNode → FileIndex → Type 0
  IsCatalogued t c =
      (id : ℕ) (entry : IndexEntry) → get id c.index ≡ some entry → others entry ⊎ Appears t entry

  kept_entry :
      {kind : FileType} (m : Metadata) (r : Reference) (s s' : Files) (entry : IndexEntry)
      → Added kind m.path r s s'
      → others entry ⊎ Appears s.tree entry
      → others entry ⊎ Appears s'.tree entry
  kept_entry m r s s' entry h (inl o) = inl o
  kept_entry m r s s' entry h (inr (q, (n, at, refers))) = elim (Bool-cases (str_eq q m.path)) [
    | inl same ↦
        let here : HasNode s.tree m.path n =
          subst (λ p. HasNode s.tree p n) ((str_eq_iff q m.path).0 same) at in
        inr (m.path, (h.node, h.at, h.refers ∙ rw (h.reused n entry.reference here refers) refl))
    | inr other ↦ inr (q, (n, h.kept q n (λ e. cc ((str_eq_iff q m.path).1 e)) at, refers))
  ]

  Added-IsCatalogued :
      {kind : FileType} (m : Metadata) (r : Reference) (s s' : Files) (c : FileIndex)
      → Added kind m.path r s s'
      → IsCatalogued s.tree c
      → IsCatalogued s'.tree (Index.add r m c)
  unfolding Index.add
  Added-IsCatalogued m r s s' c h catalogued id entry e = elim (Bool-cases (r.id == id)) [
    | inl same ↦
        let new : some (record { reference = r; metadata = m }) ≡ some entry =
          ground (arith, e, get-put r.id id (record { reference = r; metadata = m }) c.index) in
        inr (m.path, (h.node, h.at, cc (h.refers, new)))
    | inr other ↦ kept_entry m r s s' entry h (
        catalogued id entry
          (ground (arith, e, get-put r.id id (record { reference = r; metadata = m }) c.index)))
  ]

  -- The tree has every node under its own canonical path, and the index is in step with it.
  abbrev pub InStep : Tree FileNode → FileIndex → Type 0
  InStep t c = IsFormed t × IsCatalogued t c

  abbrev BuilderInStep : Result Reference × Builder → Type 0
  BuilderInStep x = InStep x.1.files.tree x.1.index

  add_to_tree-IsFormed :
      (kind : FileType) (m : Metadata) (s : Files)
      → IsCanonical m.path
      → IsFormed s.tree
      → IsFormed (add_to_tree kind m s).1.tree
  unfolding add_to_tree add_file add_dir add_sym_link add_hard_link new_file new_dir new_sym_link
      new_hard_link
  add_to_tree-IsFormed sym_link m s c formed =
      (add_kind-Kept sym_link m.path (new_sym_link m.path m.link_destination) s (λ r. c) c formed).1
  add_to_tree-IsFormed hard_link m s c formed =
      (add_kind-Kept hard_link m.path (new_hard_link m.path m.link_destination) s (λ r. c) c
        formed).1
  add_to_tree-IsFormed directory m s c formed =
      (add_kind-Kept directory m.path (new_dir m.path) s (λ r. c) c formed).1
  add_to_tree-IsFormed regular m s c formed =
      (add_kind-Kept regular m.path (new_file m.path) s (λ r. c) c formed).1
  add_to_tree-IsFormed character_device m s c formed =
      (add_kind-Kept regular m.path (new_file m.path) s (λ r. c) c formed).1
  add_to_tree-IsFormed block_device m s c formed =
      (add_kind-Kept regular m.path (new_file m.path) s (λ r. c) c formed).1
  add_to_tree-IsFormed fifo m s c formed =
      (add_kind-Kept regular m.path (new_file m.path) s (λ r. c) c formed).1
  add_to_tree-IsFormed socket m s c formed =
      (add_kind-Kept regular m.path (new_file m.path) s (λ r. c) c formed).1
  add_to_tree-IsFormed irregular m s c formed =
      (add_kind-Kept regular m.path (new_file m.path) s (λ r. c) c formed).1

  build-InStep :
      (m : Metadata) (b : Builder)
      → IsCanonical m.path
      → InStep b.files.tree b.index
      → BuilderInStep (Builder.add m b)
  unfolding Builder.add
  build-InStep m b canonical (formed, catalogued) =
      go (add_to_tree m.file_type m b.files)
        (add_to_tree-Outcome m.file_type m b.files canonical formed.keyed)
        (add_to_tree-IsFormed m.file_type m b.files canonical formed)
    where
      left :
          (s' : Files) (entry : IndexEntry)
          → ((q : FilePath) (n : FileNode) → HasNode b.files.tree q n → HasNode s'.tree q n)
          → others entry ⊎ Appears b.files.tree entry
          → others entry ⊎ Appears s'.tree entry
      left s' entry h (inl o) = inl o
      left s' entry h (inr (q, (n, at, refers))) = inr (q, (n, h q n at, refers))

      go :
          (x : Result Reference × Files)
          → Outcome (kind_in_tree m.file_type) m.path b.files x
          → IsFormed x.1.tree
          → BuilderInStep (elim x.0 [
            | err e ↦ (err e, record b { files = x.1 })
            | ok ref ↦ (ok ref, record { files = x.1; index = Index.add ref m b.index })
          ])
      go (ok r, s) h k = (k, Added-IsCatalogued m r b.files s b.index h catalogued)
      go (err e, s) h k = (k, λ id entry at. left s entry h (catalogued id entry at))

  abbrev pub ReadingInStep : Reading → Type 0
  ReadingInStep s = InStep s.files.tree s.catalog.index

  abbrev LeavesInStep : {A : Type 0} → Result A × Reading → Type 0
  LeavesInStep x = ReadingInStep x.1

  add_file_of_layer-InStep :
      (layer : ℕ) (m : Metadata) (size : ℕ) (opener : Opener) (s : Reading)
      → IsCanonical m.path
      → ReadingInStep s
      → LeavesInStep (add_file_of_layer layer m size opener s)
  unfolding add_file_of_layer add_image_references
  add_file_of_layer-InStep layer m size opener s canonical h =
      go (Builder.add m (record { files = s.files; index = s.catalog.index }))
        (build-InStep m (record { files = s.files; index = s.catalog.index }) canonical h)
    where
      go :
          (x : Result Reference × Builder)
          → BuilderInStep x
          → LeavesInStep {A = Unit {0}} (elim x.0 [
            | err e ↦ (
              err e,
              record s { files = x.1.files; catalog = record s.catalog { index = x.1.index } },
            )
            | ok ref ↦ (
              ok tt,
              record s {
                files = x.1.files;
                catalog = record s.catalog {
                  index = x.1.index;
                  layer_by_id = put ref.id layer s.catalog.layer_by_id;
                  opener_by_id = put ref.id (some opener) s.catalog.opener_by_id;
                };
                size = s.size + size;
              },
            )
          ])
      go (ok r, b) k = k
      go (err e, b) k = k

  module _ (mime_of : LazyReader → Str) where
    abbrev IndexInStep : TarIndex × Reading → Type 0
    IndexInStep x = ReadingInStep x.1

    abbrev IndexLeft : Result (Unit {0}) × (TarIndex × Reading) → Type 0
    IndexLeft x = IndexInStep x.1

    index_visitor-InStep :
        (path : Str) (layer : ℕ) (e : TarFileEntry) (x : TarIndex × Reading)
        → IndexInStep x
        → IndexLeft (index_visitor path (layer_tar_indexer mime_of layer) e x)
    unfolding index_visitor index_at layer_tar_indexer
    index_visitor-InStep path layer e (t, s) h = go e.position
      where
        go :
            (position : Result ℕ)
            → IndexLeft (elim position [
              | err failure ↦ (err failure, (t, s))
              | ok p ↦ index_at path (layer_tar_indexer mime_of layer) e p (t, s)
            ])
        go (err failure) = h
        go (ok p) =
            add_file_of_layer-InStep layer (new_metadata e.header (mime_of _)) e.size _ s
              (new_metadata-IsCanonical e.header _).0 h

    pub archive-InStep :
        (path : Str) (layer : ℕ) (steps : List TarStep) (s : Reading)
        → ReadingInStep s
        → IndexLeft (new_tar_index path (layer_tar_indexer mime_of layer) steps s)
    unfolding new_tar_index
    archive-InStep path layer steps s h =
        iterate_tar-keeps IndexInStep (index_visitor path (layer_tar_indexer mime_of layer))
          (index_visitor-InStep path layer) steps ([], s) h

  squashfs_metadata-IsCanonical :
      (path : Str) (m : Metadata) → IsCanonical (squashfs_metadata path m).path
  unfolding squashfs_metadata join_path
  squashfs_metadata-IsCanonical path m =
      let inner = clean-IsCanonical (slash ∷ path) in
      subst (λ p. IsCanonical (clean p)) (sym inner.spells) (clean-IsCanonical _)

  pub squashfs-InStep :
      (layer : ℕ) (walk : List (Str × Result (Metadata × ℕ))) (s : Reading)
      → ReadingInStep s
      → LeavesInStep (walk_squashfs layer walk s)
  unfolding walk_squashfs
  squashfs-InStep layer [] s h = h
  squashfs-InStep layer ((path, err e) ∷ rest) s h = h
  squashfs-InStep layer ((path, ok (m, size)) ∷ rest) s h =
      after-keeps ReadingInStep (add_file_of_layer layer (squashfs_metadata path m) size _ s) _
        (add_file_of_layer-InStep layer (squashfs_metadata path m) size _ s
          (squashfs_metadata-IsCanonical path m) h)
        (λ u s1. squashfs-InStep layer rest s1)
