-- ===== src/FileTree/Absent.antt =====
-- What the visitor of `Merge` in pkg/filetree/filetree.go leaves out of the tree: a path that it does not write.
use stereoscope.Errors.{Leaves, Result, ok, err, after, after-keeps}
use stereoscope.File.Paths.{FilePath, parent_path, constituent_paths, un_whiteout_path}
use stereoscope.File.Paths.Canonical.{All-reverse}
use stereoscope.FileTree.Edit.{
  Files, keep_tree, set_file_node, missing_paths, add_dirs, add_parent_paths, remove_path,
  remove_child_paths,
}
use stereoscope.FileTree.Keyed.{
  IsKeyed, node-set_file_node, set_file_node-IsKeyed, remove_path-IsKeyed,
  remove_child_paths-IsKeyed,
}
use stereoscope.FileTree.Merge.{
  merged_node, replaces_directory, prepare, clear_directory, graft, white_out,
}
use stereoscope.FileTree.Nodes.{FileNode, file_node_as_node, file_node, has_file_node, new_dir}
use stereoscope.FileTree.Removes.{Within-none, remove_path-Within, remove_child_paths-Within}
use stereoscope.FileTree.Resolve.{plain}
use stereoscope.Tree
use stereoscope.Tree.{Tree, NodeId}
use stereoscope.Prelude.{
  List, [], ◌∷◌, Option, none, some, ◌≡◌, ◌≢◌, refl, byte_string_eq, str_eq_iff, arith, All,
  if-keeps, Option-keeps,
}

-- The visitor does not write the path for a node: it is neither that of the node nor one above it.
abbrev pub IsUnwritten : FilePath → FilePath → Type 0
IsUnwritten p q = p ≢ q × All (λ d. d ≢ q) (constituent_paths p)

module _ (q : NodeId) where
  -- There is no node at `q`.
  abbrev pub IsAbsent : Files → Type 0
  IsAbsent s = IsKeyed s.tree × (Tree.node q s.tree ≡ none)

  set_elsewhere :
      (fn : FileNode) (s : Files)
      → fn.real_path ≢ q
      → IsAbsent s
      → Leaves IsAbsent (keep_tree s (set_file_node fn s.tree))
  set_elsewhere fn s other h = go (set_file_node fn s.tree) refl
    where
      go :
          (r : Result (Tree FileNode))
          → set_file_node fn s.tree ≡ r
          → Leaves IsAbsent (keep_tree s r)
      go (ok t) e = (
        set_file_node-IsKeyed fn s.tree t h.0 e,
        ground (arith, node-set_file_node fn s.tree t q h.0 e, str_eq_iff fn.real_path q, h.1),
      )
      go (err x) e = h

  add_dirs-IsAbsent :
      (ds : List FilePath) (s : Files)
      → All (λ d. d ≢ q) ds
      → IsAbsent s
      → Leaves IsAbsent (add_dirs ds s)
  unfolding add_dirs
  add_dirs-IsAbsent [] s other h = h
  add_dirs-IsAbsent (d ∷ ds) s other h =
      after-keeps IsAbsent (keep_tree s (set_file_node (new_dir d none) s.tree)) _
        (set_elsewhere (new_dir d none) s (unfold new_dir in other.0) h)
        (λ u s'. add_dirs-IsAbsent ds s' other.1)

  All-missing_paths :
      (t : Tree FileNode) (ds : List FilePath)
      → All (λ d. d ≢ q) ds
      → All (λ d. d ≢ q) (missing_paths t ds)
  unfolding missing_paths
  All-missing_paths t [] h = tt
  All-missing_paths t (d ∷ ds) h =
      if-keeps (All (λ d. d ≢ q)) (has_file_node (some (plain t d))) _ _ (λ e. tt)
        (λ e. (h.0, All-missing_paths t ds h.1))

  add_parent_paths-IsAbsent :
      (p : FilePath) (s : Files)
      → All (λ d. d ≢ q) (constituent_paths p)
      → IsAbsent s
      → Leaves IsAbsent (add_parent_paths p s)
  unfolding add_parent_paths
  add_parent_paths-IsAbsent p s other h =
      Option-keeps (Leaves IsAbsent) (parent_path p) _ _ (λ e. h)
        (λ parent e.
          if-keeps (Leaves IsAbsent) (has_file_node (some (plain s.tree parent))) _ _ (λ e'. h)
            (λ e'.
              add_dirs-IsAbsent _ s
                (All-reverse _ _ (All-missing_paths s.tree _ (All-reverse _ _ other))) h))

  remove_child_paths-IsAbsent :
      (p : FilePath) (s : Files) → IsAbsent s → Leaves IsAbsent (remove_child_paths p s)
  remove_child_paths-IsAbsent p s h = (
    remove_child_paths-IsKeyed p s h.0,
    Within-none q s (remove_child_paths p s).1 (remove_child_paths-Within s p s (λ k m at. at)) h.1,
  )

  pub white_out-IsAbsent :
      (upper : FileNode) (s : Files) → IsAbsent s → Leaves IsAbsent (white_out upper s)
  unfolding white_out
  white_out-IsAbsent upper s h =
      Option-keeps (Leaves IsAbsent) (un_whiteout_path upper.real_path) _ _ (λ e. h)
        (λ p e. (
          remove_path-IsKeyed p s h.0,
          Within-none q s (remove_path p s).1 (remove_path-Within p s) h.1,
        ))

  prepare-IsAbsent :
      (lower : Option FileNode) (upper : FileNode) (s : Files)
      → All (λ d. d ≢ q) (constituent_paths upper.real_path)
      → IsAbsent s
      → Leaves IsAbsent (prepare lower upper s)
  unfolding prepare
  prepare-IsAbsent none upper s other h = add_parent_paths-IsAbsent upper.real_path s other h
  prepare-IsAbsent (some n) upper s other h = h

  clear_directory-IsAbsent :
      (lower : Option FileNode) (upper : FileNode) (s : Files)
      → IsAbsent s
      → Leaves IsAbsent (clear_directory lower upper tt s)
  unfolding clear_directory
  clear_directory-IsAbsent lower upper s h =
      if-keeps (Leaves IsAbsent) (replaces_directory lower upper) _ _
        (λ e. remove_child_paths-IsAbsent upper.real_path s h) (λ e. h)

  real_path-merged_node :
      (lower : Option FileNode) (upper : FileNode)
      → (merged_node lower upper).real_path ≡ upper.real_path
  unfolding merged_node
  real_path-merged_node none upper = refl
  real_path-merged_node (some n) upper = ground arith

  -- A graft writes the path of its node and the paths above it only.
  pub graft-IsAbsent :
      (upper : FileNode) (s : Files)
      → IsUnwritten upper.real_path q
      → IsAbsent s
      → Leaves IsAbsent (graft upper s)
  unfolding graft
  graft-IsAbsent upper s other h =
      let lower = file_node (plain s.tree upper.real_path) in
      after-keeps IsAbsent (after (prepare lower upper s) (clear_directory lower upper)) _
        (after-keeps IsAbsent (prepare lower upper s) (clear_directory lower upper)
          (prepare-IsAbsent lower upper s other.1 h)
          (λ u s1. clear_directory-IsAbsent lower upper s1))
        (λ u s1.
          set_elsewhere (merged_node lower upper) s1
            (rw (real_path-merged_node lower upper) other.0))
