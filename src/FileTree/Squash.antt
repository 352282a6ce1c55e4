-- ===== src/FileTree/Squash.antt =====
-- `Merge` and `Squash` of pkg/filetree, against the paths that nodes are stored under.
use stereoscope.Errors.{Leaves, Result, ok, err, ◌>>=◌, after, after-keeps}
use stereoscope.File.Paths.{root, un_whiteout_path, is_whiteout}
use stereoscope.FileTree.Edit.{Files, new_file_tree, copy_file_tree, remove_child_paths}
use stereoscope.FileTree.Keyed.{
  IsKeyed, KeyedFiles, keep_tree-IsKeyed, add_parent_paths-IsKeyed, remove_path-IsKeyed,
  remove_child_paths-IsKeyed,
}
use stereoscope.FileTree.Merge.{
  has_opaque_directory, merge_conditions, graft, white_out, merge_visitor, merge_fuel, merge,
  merge_all, squash, prepare, clear_directory,
}
use stereoscope.FileTree.Nodes.{FileNode, new_dir, file_node_as_node, file_node}
use stereoscope.FileTree.Resolve.{plain}
use stereoscope.Tree
use stereoscope.Tree.{Tree}
use stereoscope.Tree.Copies.{copy_tree-eq}
use stereoscope.Go.Maps.{get, put}
use stereoscope.Tree.Invariant.{walk_all_keeps}
use stereoscope.Tree.Walk.{new_walker}
use stereoscope.Prelude.{
  ℕ, List, [], ◌∷◌, Option, none, some, ◌≡◌, refl, if-keeps, Option-keeps, if◌then◌else◌, All,
  arith, ap, str_eq_iff,
}

graft-IsKeyed : (upper : FileNode) (s : Files) → IsKeyed s.tree → IsKeyed (graft upper s).1.tree
unfolding graft
graft-IsKeyed upper s h =
    after-keeps KeyedFiles (after (prepare lower upper s) (clear_directory lower upper)) _
      (after-keeps KeyedFiles (prepare lower upper s) _ (prepared lower) (λ u s1 h1. cleared s1 h1))
      (λ u s2 h2. keep_tree-IsKeyed s2 s2 _ h2 refl)
  where
    lower : Option FileNode
    lower = file_node (plain s.tree upper.real_path)

    prepared : (l : Option FileNode) → IsKeyed (prepare l upper s).1.tree
    prepared none = unfold prepare in add_parent_paths-IsKeyed upper.real_path s h
    prepared (some n) = unfold prepare in h

    cleared : (s1 : Files) → IsKeyed s1.tree → IsKeyed (clear_directory lower upper tt s1).1.tree
    cleared s1 h1 =
        unfold clear_directory in
        if-keeps (Leaves KeyedFiles) _ _ _ (λ e. remove_child_paths-IsKeyed upper.real_path s1 h1)
          (λ e. h1)

white_out-IsKeyed :
    (upper : FileNode) (s : Files) → IsKeyed s.tree → IsKeyed (white_out upper s).1.tree
unfolding white_out
white_out-IsKeyed upper s h =
    Option-keeps (Leaves KeyedFiles) (un_whiteout_path upper.real_path) _ _ (λ e. h)
      (λ p e. remove_path-IsKeyed p s h)

merge_visitor-IsKeyed :
    (t : Tree FileNode) (upper : FileNode) (s : Files)
    → IsKeyed s.tree
    → IsKeyed (merge_visitor t upper s).1.tree
unfolding merge_visitor
merge_visitor-IsKeyed t upper s h =
    after-keeps KeyedFiles
      (if has_opaque_directory t upper.real_path
        then remove_child_paths upper.real_path s
        else (ok tt, s))
      _
      (if-keeps (Leaves KeyedFiles) (has_opaque_directory t upper.real_path) _ _
        (λ e. remove_child_paths-IsKeyed upper.real_path s h) (λ e. h))
      (λ u s1 h1.
        if-keeps (Leaves KeyedFiles) (is_whiteout upper.real_path) _ _
          (λ e. white_out-IsKeyed upper s1 h1) (λ e. graft-IsKeyed upper s1 h1))

-- `Merge` keeps every node of the lower tree under its own path, whatever the upper tree is and
-- whether it fails or not.
pub merge-IsKeyed : (t : Tree FileNode) (s : Files) → IsKeyed s.tree → IsKeyed (merge t s).1.tree
unfolding merge
merge-IsKeyed t s h =
    walk_all_keeps KeyedFiles t (merge_visitor t) merge_conditions
      (λ n s' e. merge_visitor-IsKeyed t n s') (merge_fuel t) (new_walker s) h

merge_all-IsKeyed :
    (ts : List (Tree FileNode)) (s : Files) → IsKeyed s.tree → IsKeyed (merge_all ts s).1.tree
unfolding merge_all
merge_all-IsKeyed [] s h = h
merge_all-IsKeyed (t ∷ ts) s h =
    after-keeps KeyedFiles (merge t s) _ (merge-IsKeyed t s h) (λ u s'. merge_all-IsKeyed ts s')

pub copy_file_tree-eq : (t : Tree FileNode) → copy_file_tree t ≡ t
unfolding copy_file_tree
copy_file_tree-eq t = copy_tree-eq (λ n. refl) t

pub new_file_tree-IsKeyed : IsKeyed new_file_tree
unfolding new_file_tree new_dir Tree.node Tree.add_root Tree.add_node Tree.has_node get put
new_file_tree-IsKeyed k n h = ground (arith, str_eq_iff root k)

abbrev pub KeyedResult : Result (Tree FileNode) → Type 0
KeyedResult (ok t) = IsKeyed t
KeyedResult (err e) = Unit

squashed :
    (x : Result (Unit {0}) × Files) → IsKeyed x.1.tree → KeyedResult (x.0 >>= λ _. ok x.1.tree)
squashed (ok u, s) h = h
squashed (err e, s) h = tt

-- If every tree that was pushed has every node under its own path, then so has the tree that `Squash` returns.
pub squash-IsKeyed :
    (ts : List (Tree FileNode)) (next_id : ℕ) → All IsKeyed ts → KeyedResult (squash ts next_id).0
unfolding squash
squash-IsKeyed [] next_id h = new_file_tree-IsKeyed
squash-IsKeyed (low ∷ ts) next_id h =
    squashed (merge_all ts _) (merge_all-IsKeyed ts _ (rw (copy_file_tree-eq low) h.0))

-- `Squash` of one tree returns that tree.
pub squash_one : (t : Tree FileNode) (next_id : ℕ) → squash (t ∷ []) next_id ≡ (ok t, next_id)
unfolding squash merge_all
squash_one t next_id = ap (λ u. (ok u, next_id)) (copy_file_tree-eq t)
