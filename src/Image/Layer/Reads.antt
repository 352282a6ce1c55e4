-- ===== src/Image/Layer/Reads.antt =====
-- `Layer.Read` of pkg/image/layer.go: the layer's tree and the catalog of the image after it.
use stereoscope.Errors.{Result, ok, err, unknown_media_type}
use stereoscope.File.LazyReader.{LazyReader}
use stereoscope.File.Metadata.{Metadata}
use stereoscope.File.Tar.{TarStep}
use stereoscope.FileTree.Ends.{new_file_tree-IsFormed}
use stereoscope.FileTree.Formed.{IsFormed}
use stereoscope.Go.Maps.{get, elem}
use stereoscope.Image.Layer.{
  Reading, SourceLayer, LayerMetadata, LayerCache, Layer, Shared, singularity_squashfs_layer,
  walk_squashfs, start_reading, layer_read, tar_path_of, new_layer_metadata, uncompressed_tar_cache,
  index_archive, read_archive, read_squashfs, read_layer,
}
use stereoscope.Image.Layer.Catalogued.{Appears, ReadingInStep, archive-InStep, squashfs-InStep}
use stereoscope.Index.{IndexEntry}
use stereoscope.Prelude.{
  ℕ, List, some, Str, str_eq, byte_string_eq, nat_eq, if-keeps, ◌≡◌, ◌⊎◌, inl, if◌then◌else◌,
}

module _ (others : IndexEntry → Type 0) where
  -- Every entry of the catalog is known.
  abbrev pub IsKnown : Shared → Type 0
  IsKnown s =
      (id : ℕ) (entry : IndexEntry) → get id s.catalog.index.index ≡ some entry → others entry

  -- A layer that was read has every node of its tree under its own canonical path, and each entry of the catalog was
  -- known or is in that tree.
  abbrev pub LayerDone : Result Layer × Shared → Type 0
  LayerDone (err e, s) = Unit
  LayerDone (ok l, s) =
      IsFormed l.tree
      × ((id : ℕ) (entry : IndexEntry)
          → get id s.catalog.index.index ≡ some entry
          → others entry ⊎ Appears l.tree entry)

  layer_read-LayerDone :
      (m : LayerMetadata) (cache : LayerCache) (r : Result (Unit {0})) (s : Reading)
      → ReadingInStep others s
      → LayerDone (layer_read m cache (r, s))
  unfolding layer_read
  layer_read-LayerDone m cache (ok u) s h = h
  layer_read-LayerDone m cache (err e) s h = tt

  start-InStep : (s : Shared) → IsKnown s → ReadingInStep others (start_reading s)
  unfolding start_reading
  start-InStep s h = (new_file_tree-IsFormed, λ id entry at. inl (h id entry at))

  module _ (mime_of : LazyReader → Str) (tar_types : List Str) where
    index_archive-LayerDone :
        (dir : Str) (m : LayerMetadata) (s : Shared) (x : Result (List TarStep) × LayerCache)
        → IsKnown s
        → LayerDone (index_archive mime_of tar_types dir m s x)
    unfolding index_archive
    index_archive-LayerDone dir m s (err e, cache) h = tt
    index_archive-LayerDone dir m s (ok steps, cache) h = layer_read-LayerDone m cache _ _ (
        archive-InStep others mime_of (tar_path_of dir m.digest) m.index steps (start_reading s)
          (start-InStep s h))

    read_squashfs-LayerDone :
        (m : LayerMetadata) (layer : SourceLayer) (s : Shared)
        → IsKnown s
        → LayerDone (read_squashfs mime_of tar_types m layer s)
    unfolding read_squashfs
    read_squashfs-LayerDone m layer s h = go layer.squashfs_walk
      where
        go :
            (x : Result (List (Str × Result (Metadata × ℕ))))
            → LayerDone (elim x [
              | err e ↦ (err e, s)
              | ok walk ↦ layer_read m s.cache (walk_squashfs m.index walk (start_reading s))
            ])
        go (err e) = tt
        go (ok walk) =
            layer_read-LayerDone m s.cache _ _
              (squashfs-InStep others m.index walk (start_reading s) (start-InStep s h))

    -- Reading a layer, if every entry of the catalog is known: if it returns the layer, every node of the layer's
    -- tree is under its own canonical path, and every entry of the catalog is known or has its reference at a node of that
    -- tree.
    pub read_layer-LayerDone :
        (diff_ids : List Str) (dir : Str) (layer : SourceLayer) (idx : ℕ) (s : Shared)
        → IsKnown s
        → LayerDone (read_layer mime_of tar_types diff_ids dir layer idx s)
    unfolding read_layer
    read_layer-LayerDone diff_ids dir layer idx s h = go (new_layer_metadata diff_ids layer idx)
      where
        by_media : LayerMetadata → Result Layer × Shared
        by_media m =
            if elem m.media_type tar_types
            then read_archive mime_of tar_types dir m layer s
            else if str_eq m.media_type singularity_squashfs_layer
            then read_squashfs mime_of tar_types m layer s
            else (err (unknown_media_type m.media_type), s)

        go :
            (x : Result LayerMetadata)
            → LayerDone (elim x [ err e ↦ (err e, s) | ok m ↦ by_media m ])
        go (err e) = tt
        go (ok m) =
            if-keeps LayerDone (elem m.media_type tar_types) _ _
              (λ e.
                unfold read_archive in
                index_archive-LayerDone dir m s (uncompressed_tar_cache dir m.digest layer s.cache)
                  h)
              (λ e.
                if-keeps LayerDone (str_eq m.media_type singularity_squashfs_layer) _ _
                  (λ e'. read_squashfs-LayerDone m layer s h) (λ e'. tt))
