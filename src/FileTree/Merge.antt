-- ===== src/FileTree/Merge.antt =====
-- `Merge` of pkg/filetree/filetree.go and pkg/filetree/union_filetree.go: the upper tree is walked, and each
-- of its nodes is grafted into the lower one.
use stereoscope.Errors.{Result, ok, err, ◌>>=◌, Act, after, no_parent}
use stereoscope.File.Kinds.{directory, type_eq}
use stereoscope.File.Paths.{
  FilePath, opaque_whiteout, is_whiteout, is_dir_whiteout, un_whiteout_path,
}
use stereoscope.FileTree.Edit.{
  Files, new_file_tree, copy_file_tree, keep_tree, set_file_node, add_parent_paths, remove_path,
  remove_child_paths,
}
use stereoscope.FileTree.Lookup.{has_path}
use stereoscope.FileTree.Nodes.{FileNode, file_node_as_node, file_node}
use stereoscope.FileTree.Resolve.{plain}
use stereoscope.Go.Paths.{join_path}
use stereoscope.Tree.{Tree, roots}
use stereoscope.Tree.Sizes.{total, weight}
use stereoscope.Tree.Walk.{WalkConditions, new_walker, walk_all}
use stereoscope.Prelude.{
  ℕ, List, [], ◌∷◌, ◌++◌, Option, none, some, Bool, false, not, ◌&&◌, byte_string_eq, if◌then◌else◌,
}

-- `hasOpaqueDirectory`
unfoldable pub has_opaque_directory : Tree FileNode → FilePath → Bool
has_opaque_directory t p = has_path t (join_path p opaque_whiteout) []

-- The conditions of the walk: not below a whiteout, and not at an opaque one.
unfoldable pub merge_conditions : WalkConditions FileNode
merge_conditions = record {
  should_terminate = none;
  should_visit = some (λ n. not (is_dir_whiteout n.real_path));
  should_continue_branch = some (λ n. not (is_whiteout n.real_path));
}

-- The copy of the upper node: the lower reference serves where the upper node has none and is of the
-- same kind.
unfoldable pub merged_node : Option FileNode → FileNode → FileNode
merged_node none upper = upper
merged_node (some lower) upper = elim lower.reference [
  | none ↦ upper
  | some r ↦ elim upper.reference [
    | some u ↦ upper
    | none ↦
        if type_eq upper.file_type lower.file_type
        then record upper { reference = some r }
        else upper
  ]
]

-- A directory that makes way for a node of another kind.
unfoldable pub replaces_directory : Option FileNode → FileNode → Bool
replaces_directory none upper = false
replaces_directory (some lower) upper =
    not (type_eq upper.file_type directory) && type_eq lower.file_type directory

-- The parents of a path that the lower tree does not have.
unfoldable pub prepare : Option FileNode → FileNode → Act Files (Unit {0})
prepare none upper s = add_parent_paths upper.real_path s
prepare (some lower) upper s = (ok tt, s)

unfoldable pub clear_directory : Option FileNode → FileNode → Unit {0} → Act Files (Unit {0})
unfolding replaces_directory
clear_directory lower upper _ s =
    if replaces_directory lower upper then remove_child_paths upper.real_path s else (ok tt, s)

-- The visitor behind its first two steps: the node is grafted at its path.
unfoldable pub graft : FileNode → Act Files (Unit {0})
graft upper s =
    let lower = file_node (plain s.tree upper.real_path) in
    after (after (prepare lower upper s) (clear_directory lower upper))
      (λ u s'. keep_tree s' (set_file_node (merged_node lower upper) s'.tree))

-- A whiteout removes the path that it names.
unfoldable pub white_out : FileNode → Act Files (Unit {0})
white_out upper s = elim (un_whiteout_path upper.real_path) [
  | none ↦ (err (no_parent upper.real_path), s)
  | some p ↦ remove_path p s
]

-- The visitor of `Merge`.
unfoldable pub merge_visitor : Tree FileNode → FileNode → Act Files (Unit {0})
merge_visitor upper_tree upper s =
    let opened : Result (Unit {0}) × Files =
      if has_opaque_directory upper_tree upper.real_path
      then remove_child_paths upper.real_path s
      else (ok tt, s) in
    after opened
      (λ _ s1. if is_whiteout upper.real_path then white_out upper s1 else graft upper s1)

-- Fuel for the walk over the upper tree: the nodes at and below its roots.
unfoldable pub merge_fuel : Tree FileNode → ℕ
unfolding total weight
merge_fuel t = total (weight t) (roots t)

-- `Merge`
unfoldable pub merge : Tree FileNode → Act Files (Unit {0})
merge upper s =
    let (r, w) =
      walk_all upper (merge_visitor upper) merge_conditions (merge_fuel upper) (new_walker s) in
    (r, w.state)

unfoldable pub merge_all : List (Tree FileNode) → Act Files (Unit {0})
merge_all [] s = (ok tt, s)
merge_all (t ∷ ts) s = after (merge t s) (λ _. merge_all ts)

-- `Squash` of `UnionFileTree`, over the trees that were pushed, the lowest first.
unfoldable pub squash : List (Tree FileNode) → ℕ → Result (Tree FileNode) × ℕ
unfolding merge_all
squash [] next_id = (ok new_file_tree, next_id)
squash (t ∷ ts) next_id =
    let (r, s) = merge_all ts (record { tree = copy_file_tree t; next_id = next_id }) in
    (r >>= λ _. ok s.tree, s.next_id)

-- `PushTree`
unfoldable pub push_tree : Tree FileNode → List (Tree FileNode) → List (Tree FileNode)
push_tree t trees = trees ++ t ∷ []
