-- ===== src/FileTree/Parents.antt =====
-- What `addParentPaths` of pkg/filetree/filetree.go keeps of the tree.
use stereoscope.Errors.{Leaves, Result, ok, err, after-keeps}
use stereoscope.File.Ancestors.{constituent_paths-IsCanonical}
use stereoscope.File.Paths.{FilePath, parent_path}
use stereoscope.File.Paths.Canonical.{IsCanonical, normalize_of_IsCanonical, All-reverse}
use stereoscope.FileTree.Edit.{
  Files, keep_tree, set_file_node, missing_paths, add_dirs, add_parent_paths,
}
use stereoscope.FileTree.Keyed.{IsKeyed, HasNode, node-set_file_node, set_file_node-IsKeyed}
use stereoscope.FileTree.Nodes.{FileNode, file_node_as_node, has_file_node, new_dir}
use stereoscope.FileTree.Resolve.{plain}
use stereoscope.Tree.{Tree, NodeId}
use stereoscope.Prelude.{
  List, [], ◌∷◌, none, some, false, ◌≡◌, ◌≢◌, refl, byte_string_eq, str_eq_iff, arith, All,
  if-keeps, Option-keeps,
}

module _ (q : NodeId) (m : FileNode) where
  -- The node `m` is at `q`.
  abbrev pub StillThere : Files → Type 0
  StillThere s = IsKeyed s.tree × HasNode s.tree q m

  set_other :
      (fn : FileNode) (s : Files)
      → fn.real_path ≢ q
      → StillThere s
      → Leaves StillThere (keep_tree s (set_file_node fn s.tree))
  set_other fn s other h = go (set_file_node fn s.tree) refl
    where
      go :
          (r : Result (Tree FileNode))
          → set_file_node fn s.tree ≡ r
          → Leaves StillThere (keep_tree s r)
      go (ok t) e = (
        set_file_node-IsKeyed fn s.tree t h.0 e,
        ground (arith, node-set_file_node fn s.tree t q h.0 e, str_eq_iff fn.real_path q, h.1),
      )
      go (err x) e = h

  add_dirs-StillThere :
      (ds : List FilePath) (s : Files)
      → All (λ d. d ≢ q) ds
      → StillThere s
      → Leaves StillThere (add_dirs ds s)
  unfolding add_dirs
  add_dirs-StillThere [] s other h = h
  add_dirs-StillThere (d ∷ ds) s other h =
      after-keeps StillThere (keep_tree s (set_file_node (new_dir d none) s.tree)) _
        (set_other (new_dir d none) s (unfold new_dir in other.0) h)
        (λ u s'. add_dirs-StillThere ds s' other.1)

  absent :
      (t : Tree FileNode) (d : FilePath)
      → has_file_node (some (plain t d)) ≡ false
      → IsCanonical d
      → d ≡ q
      → HasNode t q m
      → ⊥
  unfolding has_file_node plain
  absent t d e c same h = ground (arith, normalize_of_IsCanonical d c)

  -- A path that is missing is not that of a node.
  missing_paths-ne :
      (t : Tree FileNode) (ds : List FilePath)
      → HasNode t q m
      → All IsCanonical ds
      → All (λ d. d ≢ q) (missing_paths t ds)
  unfolding missing_paths
  missing_paths-ne t [] h c = tt
  missing_paths-ne t (d ∷ ds) h c =
      if-keeps (All (λ d. d ≢ q)) (has_file_node (some (plain t d))) _ _ (λ e. tt)
        (λ e. (λ same. absent t d e c.0 same h, missing_paths-ne t ds h c.1))

  pub add_parent_paths-StillThere :
      (p : FilePath) (s : Files)
      → IsCanonical p
      → StillThere s
      → Leaves StillThere (add_parent_paths p s)
  unfolding add_parent_paths
  add_parent_paths-StillThere p s c h =
      Option-keeps (Leaves StillThere) (parent_path p) _ _ (λ e. h)
        (λ parent e.
          if-keeps (Leaves StillThere) (has_file_node (some (plain s.tree parent))) _ _ (λ e'. h)
            (λ e'.
              add_dirs-StillThere _ s
                (All-reverse _ _ (
                  missing_paths-ne s.tree _ h.1
                    (All-reverse IsCanonical _ (constituent_paths-IsCanonical p c))))
                h))
