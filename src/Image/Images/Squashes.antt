-- ===== src/Image/Images/Squashes.antt =====
-- `squash` of pkg/image/image.go against `Squash` of pkg/filetree/union_filetree.go: one tree after the other, or
-- all at once.
use stereoscope.Errors.{Result, ok, err, after, ◌>>=◌}
use stereoscope.FileTree.Edit.{Files}
use stereoscope.FileTree.Merge.{merge, merge_all, squash}
use stereoscope.FileTree.Nodes.{FileNode}
use stereoscope.FileTree.Squash.{copy_file_tree-eq, squash_one}
use stereoscope.Image.Images.{
  Squashing, on_top, squash_above, squash_layers, top_squashed, squashed_tree,
}
use stereoscope.Image.Layer.{Layer}
use stereoscope.Tree.{Tree}
use stereoscope.Prelude.{ℕ, List, [], ◌∷◌, map, Option, some, ◌≡◌, refl, sym, ap, ◌∙◌}

-- A squash of layers and a squash of trees have the same error, or the squashed tree of the layers is the tree;
-- and they leave the same counter.
abbrev pub Agrees :
    (List Layer → Option (Tree FileNode)) → Squashing → Result (Tree FileNode) × ℕ → Type 0
Agrees top ((ok u, ls), n) (ok t, n') = (top ls ≡ some t) × (n ≡ n')
Agrees top ((err e, ls), n) (err e', n') = (e ≡ e') × (n ≡ n')
Agrees top ((ok u, ls), n) (err e', n') = ⊥
Agrees top ((err e, ls), n) (ok t, n') = ⊥

finished : Result (Unit {0}) × Files → Result (Tree FileNode) × ℕ
finished (r, s) = (r >>= λ _. ok s.tree, s.next_id)

squash_lem :
    (low : Tree FileNode) (ts : List (Tree FileNode)) (next_id : ℕ)
    → squash (low ∷ ts) next_id ≡ finished (merge_all ts (record { tree = low; next_id = next_id }))
unfolding squash finished
squash_lem low ts next_id =
    ap (λ t. finished (merge_all ts (record { tree = t; next_id = next_id })))
      (copy_file_tree-eq low)

module _ (low t : Tree FileNode) (ts : List (Tree FileNode)) (next_id : ℕ) where
  -- What `squash` of two trees returns goes on as the lowest of the rest.
  abbrev go_on : Result (Tree FileNode) × ℕ → Result (Tree FileNode) × ℕ
  go_on (ok u, n) = squash (u ∷ ts) n
  go_on (err e, n) = (err e, n)

  merged :
      (x : Result (Unit {0}) × Files)
      → finished (after x (λ _. merge_all ts)) ≡ go_on (finished (after x (λ _. merge_all [])))
  unfolding finished merge_all
  merged (ok u, s) = sym (squash_lem s.tree ts s.next_id)
  merged (err e, s) = refl

  merge_all-merge_all :
      (s : Files) → finished (merge_all (t ∷ ts) s) ≡ go_on (finished (merge_all (t ∷ []) s))
  unfolding merge_all
  merge_all-merge_all s = merged (merge t s)

  squash-squash : squash (low ∷ t ∷ ts) next_id ≡ go_on (squash (low ∷ t ∷ []) next_id)
  squash-squash =
      squash_lem low (t ∷ ts) next_id
      ∙ merge_all-merge_all (record { tree = low; next_id = next_id })
      ∙ ap go_on (sym (squash_lem low (t ∷ []) next_id))

abbrev pub trees_of : List Layer → List (Tree FileNode)
trees_of ls = map (λ (l : Layer). l.tree) ls

Agrees-on_top :
    (below : Option (Tree FileNode)) (l : Layer) (t : Tree FileNode) (x : Squashing)
    (y : Result (Tree FileNode) × ℕ)
    → l.squashed_tree ≡ some t
    → Agrees (top_squashed (some t)) x y
    → Agrees (top_squashed below) (on_top l x) y
unfolding on_top top_squashed
Agrees-on_top below l t ((ok u, ls), n) (ok t', n') e h = (rw e h.0, h.1)
Agrees-on_top below l t ((err f, ls), n) (err f', n') e h = h
Agrees-on_top below l t ((ok u, ls), n) (err f', n') e h = h
Agrees-on_top below l t ((err f, ls), n) (ok t', n') e h = h

squash_above-Agrees :
    (last : Tree FileNode) (ls : List Layer) (next_id : ℕ)
    → Agrees
        (top_squashed (some last))
        (squash_above last ls next_id)
        (squash (last ∷ trees_of ls) next_id)
unfolding squash_above
squash_above-Agrees last [] next_id =
    rw (squash_one last next_id) (unfold top_squashed in (refl, refl))
squash_above-Agrees last (l ∷ ls) next_id =
    rw (squash-squash last l.tree (trees_of ls) next_id)
      (step (squash (last ∷ l.tree ∷ []) next_id) (λ t n. squash_above-Agrees t ls n))
  where
    step :
        (x : Result (Tree FileNode) × ℕ)
        → ((t : Tree FileNode) (n : ℕ)
            → Agrees (top_squashed (some t)) (squash_above t ls n) (squash (t ∷ trees_of ls) n))
        → Agrees
            (top_squashed (some last))
            (elim x.0 [
              | err e ↦ ((err e, l ∷ ls), x.1)
              | ok t ↦ on_top (record l { squashed_tree = some t }) (squash_above t ls x.1)
            ])
            (go_on last l.tree (trees_of ls) next_id x)
    step (err e, n) rest = (refl, refl)
    step (ok t, n) rest =
        Agrees-on_top (some last) (record l { squashed_tree = some t }) t (squash_above t ls n) _
          refl (rest t n)

-- Squashing layer after layer agrees with one squash of the trees of all layers: they fail with the same error,
-- or the squashed tree of the image is the tree of that squash; and they use up the same file IDs.
pub squash_layers-Agrees :
    (ls : List Layer) (next_id : ℕ)
    → Agrees squashed_tree (squash_layers ls next_id) (squash (trees_of ls) next_id)
unfolding squash_layers squashed_tree
squash_layers-Agrees [] next_id = unfold squash top_squashed in (refl, refl)
squash_layers-Agrees (l ∷ ls) next_id =
    Agrees-on_top _ (record l { squashed_tree = some l.tree }) l.tree
      (squash_above l.tree ls next_id) _ refl (squash_above-Agrees l.tree ls next_id)

abbrev HasTrees : List (Tree FileNode) → Squashing → Type 0
HasTrees ts x = trees_of x.0.1 ≡ ts

-- Squashing leaves the layers' own trees.
trees-on_top : (l : Layer) (x : Squashing) → trees_of (on_top l x).0.1 ≡ l.tree ∷ trees_of x.0.1
unfolding on_top
trees-on_top l ((r, ls), n) = refl

trees-squash_above :
    (last : Tree FileNode) (ls : List Layer) (next_id : ℕ)
    → trees_of (squash_above last ls next_id).0.1 ≡ trees_of ls
unfolding squash_above
trees-squash_above last [] next_id = refl
trees-squash_above last (l ∷ ls) next_id =
    step (squash (last ∷ l.tree ∷ []) next_id) (λ t n. trees-squash_above t ls n)
  where
    step :
        (x : Result (Tree FileNode) × ℕ)
        → ((t : Tree FileNode) (n : ℕ) → trees_of (squash_above t ls n).0.1 ≡ trees_of ls)
        → HasTrees (l.tree ∷ trees_of ls) (elim x.0 [
          | err e ↦ ((err e, l ∷ ls), x.1)
          | ok t ↦ on_top (record l { squashed_tree = some t }) (squash_above t ls x.1)
        ])
    step (err e, n) rest = refl
    step (ok t, n) rest =
        trees-on_top (record l { squashed_tree = some t }) (squash_above t ls n)
        ∙ ap (◌∷◌ l.tree) (rest t n)

pub trees-squash_layers :
    (ls : List Layer) (next_id : ℕ) → trees_of (squash_layers ls next_id).0.1 ≡ trees_of ls
unfolding squash_layers
trees-squash_layers [] next_id = refl
trees-squash_layers (l ∷ ls) next_id =
    trees-on_top (record l { squashed_tree = some l.tree }) (squash_above l.tree ls next_id)
    ∙ ap (◌∷◌ l.tree) (trees-squash_above l.tree ls next_id)
