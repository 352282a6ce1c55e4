-- ===== src/Image/Images/Ends.antt =====
-- `squash` of pkg/image/image.go ends, on layers whose trees have their nodes under canonical paths.
use stereoscope.Errors.{Result, ok, err, out_of_fuel}
use stereoscope.FileTree.Ends.{FormedResult, squash-FormedResult}
use stereoscope.FileTree.Formed.{IsFormed}
use stereoscope.FileTree.Merge.{squash}
use stereoscope.FileTree.Nodes.{FileNode}
use stereoscope.Image.Images.{Squashing, on_top, squash_above, squash_layers}
use stereoscope.Image.Images.Squashes.{trees_of}
use stereoscope.Image.Layer.{Layer}
use stereoscope.Tree.{Tree}
use stereoscope.Prelude.{ℕ, List, [], ◌∷◌, some, ◌≡◌, ◌≢◌, refl, All}

-- The layer has a squashed tree, with its nodes under canonical paths.
abbrev pub IsSquashed : Layer → Type 0
IsSquashed l = (t : Tree FileNode) × (l.squashed_tree ≡ some t) × IsFormed t

-- All layers were squashed, or there is an error other than that of the fuel.
abbrev pub SquashingDone : Squashing → Type 0
SquashingDone ((ok u, ls), n) = All IsSquashed ls
SquashingDone ((err e, ls), n) = e ≢ out_of_fuel

on_top-SquashingDone :
    (l : Layer) (x : Squashing) → IsSquashed l → SquashingDone x → SquashingDone (on_top l x)
unfolding on_top
on_top-SquashingDone l ((ok u, ls), n) h hs = (h, hs)
on_top-SquashingDone l ((err e, ls), n) h hs = hs

squash_above-SquashingDone :
    (last : Tree FileNode) (ls : List Layer) (next_id : ℕ)
    → IsFormed last
    → All IsFormed (trees_of ls)
    → SquashingDone (squash_above last ls next_id)
unfolding squash_above
squash_above-SquashingDone last [] next_id formed hs = tt
squash_above-SquashingDone last (l ∷ ls) next_id formed hs =
    step (squash (last ∷ l.tree ∷ []) next_id)
      (squash-FormedResult (last ∷ l.tree ∷ []) next_id (formed, (hs.0, tt)))
      (λ t n h. squash_above-SquashingDone t ls n h hs.1)
  where
    step :
        (x : Result (Tree FileNode) × ℕ)
        → FormedResult x.0
        → ((t : Tree FileNode) (n : ℕ) → IsFormed t → SquashingDone (squash_above t ls n))
        → SquashingDone (elim x.0 [
          | err e ↦ ((err e, l ∷ ls), x.1)
          | ok t ↦ on_top (record l { squashed_tree = some t }) (squash_above t ls x.1)
        ])
    step (err e, n) h rest = h
    step (ok t, n) h rest =
        on_top-SquashingDone (record l { squashed_tree = some t }) (squash_above t ls n)
          (t, refl, h) (rest t n h)

-- Squashing the layers of an image ends: each layer has then a squashed tree whose nodes stand under their own
-- canonical paths, or there is an error other than that of the fuel.
pub squash_layers-SquashingDone :
    (ls : List Layer) (next_id : ℕ)
    → All IsFormed (trees_of ls)
    → SquashingDone (squash_layers ls next_id)
unfolding squash_layers
squash_layers-SquashingDone [] next_id hs = tt
squash_layers-SquashingDone (l ∷ ls) next_id hs =
    on_top-SquashingDone (record l { squashed_tree = some l.tree }) (squash_above l.tree ls next_id)
      (l.tree, refl, hs.0) (squash_above-SquashingDone l.tree ls next_id hs.0 hs.1)
