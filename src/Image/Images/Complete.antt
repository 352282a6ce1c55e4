-- ===== src/Image/Images/Complete.antt =====
-- `Image.Read` of pkg/image/image.go: what its trees and its catalog are after it.
use mathlib.Core.Path.{subst}
use stereoscope.Errors.{Result, ok, err, after, ◌>>=◌}
use stereoscope.File.LazyReader.{LazyReader}
use stereoscope.FileTree.Formed.{IsFormed}
use stereoscope.Go.Maps.{get}
use stereoscope.Image.Catalog.{FileCatalog, new_file_catalog}
use stereoscope.Image.Images.{
  SourceImage, Image, read_layers, finish_image, read_image, squash_layers, Squashing, add_sizes,
}
use stereoscope.FileTree.Nodes.{FileNode}
use stereoscope.Tree.{Tree}
use stereoscope.Image.Images.Ends.{IsSquashed, SquashingDone, squash_layers-SquashingDone}
use stereoscope.Image.Images.Squashes.{trees_of, trees-squash_layers}
use stereoscope.Image.Layer.{SourceLayer, Layer, LayerCache, Shared, read_layer}
use stereoscope.Image.Layer.Catalogued.{Appears}
use stereoscope.Image.Layer.Reads.{IsKnown, LayerDone, read_layer-LayerDone}
use stereoscope.Image.Metadata.{
  ImageMetadata, AdditionalMetadata, read_image_metadata, apply_override_metadata,
}
use stereoscope.Search.Context.{SearchContext}
use stereoscope.Index.{IndexEntry}
use stereoscope.Prelude.{ℕ, suc, List, [], ◌∷◌, All, Str, some, nat_eq, ◌≡◌, ◌⊎◌, inl, inr}

-- The tree of one of the layers has the reference of the entry.
abbrev pub InSomeTree : List (Tree FileNode) → IndexEntry → Type 0
InSomeTree [] entry = ⊥
InSomeTree (t ∷ ts) entry = Appears t entry ⊎ InSomeTree ts entry

abbrev pub AllInTrees : (IndexEntry → Type 0) → List (Tree FileNode) → FileCatalog → Type 0
AllInTrees others ts c =
    (id : ℕ) (entry : IndexEntry)
    → get id c.index.index ≡ some entry
    → others entry ⊎ InSomeTree ts entry

abbrev LayersDone : (IndexEntry → Type 0) → Result (List Layer) × Shared → Type 0
LayersDone others (err e, s) = Unit
LayersDone others (ok ls, s) =
    All IsFormed (trees_of ls) × AllInTrees others (trees_of ls) s.catalog

module _ (mime_of : LazyReader → Str) (tar_types : List Str) where
  read_layers-LayersDone :
      (others : IndexEntry → Type 0) (diff_ids : List Str) (dir : Str) (sources : List SourceLayer)
      (idx : ℕ) (s : Shared)
      → IsKnown others s
      → LayersDone others (read_layers mime_of tar_types diff_ids dir sources idx s)
  unfolding read_layers
  read_layers-LayersDone others diff_ids dir [] idx s h = (tt, λ id entry at. inl (h id entry at))
  read_layers-LayersDone others diff_ids dir (source ∷ sources) idx s h =
      first (read_layer mime_of tar_types diff_ids dir source idx s)
        (read_layer-LayerDone others mime_of tar_types diff_ids dir source idx s h)
        (λ l s1.
          read_layers-LayersDone (λ entry. others entry ⊎ Appears l.tree entry) diff_ids dir sources
            (suc idx) s1)
    where
      regroup :
          (l : Layer) (ts : List (Tree FileNode)) (entry : IndexEntry)
          → (others entry ⊎ Appears l.tree entry) ⊎ InSomeTree ts entry
          → others entry ⊎ InSomeTree (l.tree ∷ ts) entry
      regroup l ls entry (inl (inl o)) = inl o
      regroup l ls entry (inl (inr a)) = inr (inl a)
      regroup l ls entry (inr b) = inr (inr b)

      rest :
          (l : Layer) (x : Result (List Layer) × Shared)
          → IsFormed l.tree
          → LayersDone (λ entry. others entry ⊎ Appears l.tree entry) x
          → LayersDone others (after x (λ layers s2. (ok (l ∷ layers), s2)))
      rest l (err e, s2) k h = tt
      rest l (ok ls, s2) k h =
          ((k, h.0), λ id entry at. regroup l (trees_of ls) entry (h.1 id entry at))

      first :
          (x : Result Layer × Shared)
          → LayerDone others x
          → ((l : Layer) (s1 : Shared)
              → IsKnown (λ entry. others entry ⊎ Appears l.tree entry) s1
              → LayersDone
                  (λ entry. others entry ⊎ Appears l.tree entry)
                  (read_layers mime_of tar_types diff_ids dir sources (suc idx) s1))
          → LayersDone others (
              after x (λ layer s1.
                after
                  (read_layers mime_of tar_types diff_ids dir sources (suc idx) s1)
                  (λ layers s2. (ok (layer ∷ layers), s2))))
      first (err e, s1) h next = tt
      first (ok l, s1) h next = rest l _ h.0 (next l s1 h.1)

  -- What `Read` returns: the trees and the catalog.
  abbrev IsComplete : Result Image → Type 0
  IsComplete (err e) = Unit
  IsComplete (ok image) =
      All IsFormed (trees_of image.layers)
      × All IsSquashed image.layers
      × ((id : ℕ) (entry : IndexEntry)
          → get id image.catalog.index.index ≡ some entry
          → InSomeTree (trees_of image.layers) entry)

  bind-IsComplete :
      {A : Type 0} (x : Result A) (f : A → Result Image)
      → ((a : A) → IsComplete (f a))
      → IsComplete (x >>= f)
  bind-IsComplete (ok a) f h = h a
  bind-IsComplete (err e) f h = tt

  without_others :
      (ts : List (Tree FileNode)) (entry : IndexEntry)
      → ⊥ ⊎ InSomeTree ts entry
      → InSomeTree ts entry
  without_others ts entry (inl o) = absurd o
  without_others ts entry (inr h) = h

  finish_image-IsComplete :
      (m : ImageMetadata) (x : Result (List Layer) × Shared)
      → LayersDone (λ entry. ⊥) x
      → IsComplete (x.0 >>= λ layers. finish_image mime_of tar_types m layers x.1)
  unfolding finish_image
  finish_image-IsComplete m (err e, s) h = tt
  finish_image-IsComplete m (ok layers, s) h = bind-IsComplete _ _ (λ context.
      finished (squash_layers layers s.next_id) context
        (squash_layers-SquashingDone layers s.next_id h.0) (trees-squash_layers layers s.next_id))
    where
      finished :
          (x : Squashing) (context : SearchContext)
          → SquashingDone x
          → trees_of x.0.1 ≡ trees_of layers
          → IsComplete (
              x.0.0 >>= λ _. ok (record {
                metadata = record m { size = add_sizes layers m.size };
                layers = x.0.1;
                catalog = s.catalog;
                squashed_search_context = context;
              }))
      finished ((err e, ls), n) context done same = tt
      finished ((ok u, ls), n) context done same = (
        rw same h.0,
        done,
        λ id entry at. rw same (without_others (trees_of layers) entry (h.1 id entry at)),
      )

  read_image-IsComplete :
      (options : List AdditionalMetadata) (dir : Str) (source : SourceImage) (next_id : ℕ)
      (cache : LayerCache)
      → IsComplete (read_image mime_of tar_types options dir source next_id cache)
  unfolding read_image get
  read_image-IsComplete options dir source next_id cache =
      bind-IsComplete (read_image_metadata source.metadata) _ (λ m.
        bind-IsComplete (apply_override_metadata options m).0 _ (λ u.
          bind-IsComplete source.layers _ (λ sources.
            finish_image-IsComplete (apply_override_metadata options m).1 _ (
              read_layers-LayersDone (λ entry. ⊥) (apply_override_metadata options m).1.diff_ids dir
                sources 0 (record { next_id = next_id; catalog = new_file_catalog; cache = cache })
                (λ id entry at. cc)))))

  -- An image that `Read` returns is complete: every tree of its layers has every node under its own canonical path,
  -- shorter ones above longer ones, and so has the squashed tree that every layer has; and each entry of its
  -- catalog has its reference at a node in one of the layers' own trees.
  pub read_image_complete :
      (options : List AdditionalMetadata) (dir : Str) (source : SourceImage) (next_id : ℕ)
      (cache : LayerCache) (image : Image)
      → read_image mime_of tar_types options dir source next_id cache ≡ ok image
      → All IsFormed (trees_of image.layers)
        × All IsSquashed image.layers
        × ((id : ℕ) (entry : IndexEntry)
            → get id image.catalog.index.index ≡ some entry
            → InSomeTree (trees_of image.layers) entry)
  read_image_complete options dir source next_id cache image e =
      subst IsComplete e (read_image-IsComplete options dir source next_id cache)
