-- ===== src/Image/Images.antt =====
-- pkg/image/image.go: an image is read layer by layer, and each layer is squashed with those below it. Progress
-- and logs are left out.
pub mod Squashes
pub mod Ends
pub mod Complete
use stereoscope.Errors.{Failure, Result, ok, err, Act, after, ◌>>=◌, panics}
use stereoscope.File.LazyReader.{LazyReader}
use stereoscope.File.Paths.{FilePath}
use stereoscope.File.Refs.{Reference, Resolution, has_reference, reference_of}
use stereoscope.FileTree.Edit.{new_file_tree}
use stereoscope.FileTree.Lookup.{file}
use stereoscope.FileTree.Merge.{squash}
use stereoscope.FileTree.Nodes.{FileNode, LinkResolutionOption, follow_basename_links}
use stereoscope.Image.Catalog.{FileCatalog, new_file_catalog, Contents, open_reference}
use stereoscope.Image.Layer.{SourceLayer, Layer, Shared, LayerCache, read_layer}
use stereoscope.Image.Metadata.{
  ImageMetadata, SourceMetadata, read_image_metadata, AdditionalMetadata, apply_override_metadata,
}
use stereoscope.Search.{search_by_mime_type}
use stereoscope.Search.Context.{SearchContext, new_search_context}
use stereoscope.Tree.{Tree}
use stereoscope.Errors.{file_not_found}
use stereoscope.Prelude.{
  ℕ, suc, ◌+◌, List, [], ◌∷◌, ◌++◌, map, Option, none, some, Bool, true, false, Str, if◌then◌else◌,
}

-- The source of an image: its metadata and layers in go-containerregistry.
pub record SourceImage : Type 0 where
  pub metadata : SourceMetadata
  pub layers : Result (List SourceLayer)

-- `Image`, once it is read
pub record Image : Type 0 where
  pub metadata : ImageMetadata
  pub layers : List Layer
  pub catalog : FileCatalog
  pub squashed_search_context : SearchContext

-- What `squash` leaves: the layers, with their squashed trees as far as it came, and the counter.
abbrev pub Squashing : Type 0
Squashing = (Result (Unit {0}) × List Layer) × ℕ

unfoldable pub on_top : Layer → Squashing → Squashing
on_top l ((r, ls), next_id) = ((r, l ∷ ls), next_id)

-- The loop of `squash` over the layers above the first, on the last squashed tree.
unfoldable pub squash_above : Tree FileNode → List Layer → ℕ → Squashing
unfolding on_top
squash_above last [] next_id = ((ok tt, []), next_id)
squash_above last (l ∷ ls) next_id =
    let (r, next_id') = squash (last ∷ l.tree ∷ []) next_id in
    elim r [
      | err e ↦ ((err e, l ∷ ls), next_id')
      | ok t ↦ on_top (record l { squashed_tree = some t }) (squash_above t ls next_id')
    ]

-- `squash`
unfoldable pub squash_layers : List Layer → ℕ → Squashing
unfolding squash_above
squash_layers [] next_id = ((ok tt, []), next_id)
squash_layers (l ∷ ls) next_id =
    on_top (record l { squashed_tree = some l.tree }) (squash_above l.tree ls next_id)

-- The squashed tree of the top layer.
unfoldable pub top_squashed : Option (Tree FileNode) → List Layer → Option (Tree FileNode)
top_squashed below [] = below
top_squashed below (l ∷ ls) = top_squashed l.squashed_tree ls

-- `SquashedTree`; a tree is missing where `squash` did not come so far.
unfoldable pub squashed_tree : List Layer → Option (Tree FileNode)
unfolding top_squashed
squashed_tree ls = top_squashed (some new_file_tree) ls

-- The context of a search, which panics on a tree that is missing.
unfoldable pub search_context_of : Option (Tree FileNode) → FileCatalog → Result SearchContext
search_context_of none catalog = err panics
search_context_of (some t) catalog = new_search_context t (some catalog.index)

-- The sizes of the layers, added to that of the image.
unfoldable pub add_sizes : List Layer → ℕ → ℕ
add_sizes [] size = size
add_sizes (l ∷ ls) size = add_sizes ls (size + l.metadata.size)

module _ (mime_of : LazyReader → Str) (tar_types : List Str) where
  -- The loop of `Read` over the layers.
  unfoldable pub read_layers : List Str → Str → List SourceLayer → ℕ → Act Shared (List Layer)
  unfolding read_layer
  read_layers diff_ids dir [] idx s = (ok [], s)
  read_layers diff_ids dir (l ∷ ls) idx s =
      after (read_layer mime_of tar_types diff_ids dir l idx s) (λ layer s1.
        after (read_layers diff_ids dir ls (suc idx) s1) (λ layers s2. (ok (layer ∷ layers), s2)))

  -- The end of `Read`, once the layers are read: the error of `squash` is returned after the context is made.
  unfoldable pub finish_image : ImageMetadata → List Layer → Shared → Result Image
  unfolding squash_layers squashed_tree search_context_of
  finish_image m layers s =
      let squashing = squash_layers layers s.next_id in
      search_context_of (squashed_tree squashing.0.1) s.catalog >>= λ context.
      squashing.0.0 >>= λ _. ok (record {
        metadata = record m { size = add_sizes layers m.size };
        layers = squashing.0.1;
        catalog = s.catalog;
        squashed_search_context = context;
      })

  -- `Read`
  unfoldable pub read_image :
      List AdditionalMetadata → Str → SourceImage → ℕ → LayerCache → Result Image
  unfolding read_layers finish_image read_image_metadata apply_override_metadata
  read_image options dir image next_id cache = do
    m ← read_image_metadata image.metadata
    let overridden = apply_override_metadata options m
    done ← overridden.0
    sources ← image.layers
    let start : Shared = record { next_id = next_id; catalog = new_file_catalog; cache = cache }
    let filled = read_layers overridden.1.diff_ids dir sources 0 start
    layers ← filled.0
    finish_image overridden.1 layers filled.1

-- `fetchReaderByPath` of pkg/image/content_helpers.go: a resolution that is missing has no reference.
unfoldable pub fetch_reader_by_path : Tree FileNode → FileCatalog → FilePath → Result Contents
fetch_reader_by_path t catalog path = do
  found ← file t path (follow_basename_links ∷ [])
  elim found [
    | none ↦ err (file_not_found path)
    | some r ↦ elim (reference_of r) [
      | none ↦ err (file_not_found path)
      | some ref ↦ open_reference ref catalog
    ]
  ]

nth_layer : ℕ → List Layer → Option Layer
nth_layer n [] = none
nth_layer ℕ.zero (l ∷ ls) = some l
nth_layer (suc n) (l ∷ ls) = nth_layer n ls

-- `ResolveLinkByLayerSquash`: a layer that is not there, and a squashed tree that is missing, are panics.
unfoldable pub resolve_link_by_layer_squash :
    List Layer → Reference → ℕ → List LinkResolutionOption → Result (Option Resolution)
unfolding nth_layer
resolve_link_by_layer_squash layers ref layer options = elim (nth_layer layer layers) [
  | none ↦ err panics
  | some l ↦ elim l.squashed_tree [
    | none ↦ err panics
    | some t ↦ file t ref.real_path (follow_basename_links ∷ options)
  ]
]

-- The references of the resolutions that have one.
unfoldable pub references_found : List Resolution → List Reference
references_found [] = []
references_found (r ∷ rs) =
    let rest = references_found rs in
    elim (reference_of r) [
      | none ↦ rest
      | some ref ↦ if has_reference (some r) then ref ∷ rest else rest
    ]

-- `FilesByMIMEType` and `FilesByMIMETypeFromSquash`, over the context of a search
unfoldable pub files_by_mime_type : SearchContext → List Str → Result (List Reference)
unfolding references_found search_by_mime_type
files_by_mime_type sc types = search_by_mime_type sc types >>= λ found. ok (references_found found)
