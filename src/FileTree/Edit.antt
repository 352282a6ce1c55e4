-- ===== src/FileTree/Edit.antt =====
-- The writes of pkg/filetree/filetree.go. The state is the tree with the counter of pkg/file/id.go. A
-- node of `t.nodes` that Go changes through its pointer is written back to `t.nodes`; the child and
-- parent maps, which hold the same pointers, are read in this package for their identities alone.
-- Where `setFileNode` fails, the reference that Go returns beside the error is dropped.
use mathlib.Core.List.{reverse}
use stereoscope.Errors.{
  Result, ok, err, Act, after, removing_root, wrong_type, no_parent, parent_not_found,
}
use stereoscope.File.Kinds.{FileType, regular, sym_link, hard_link, directory, type_eq}
use stereoscope.File.Paths.{FilePath, root, normalize, parent_path, constituent_paths}
use stereoscope.File.Refs.{Reference, new_file_reference}
use stereoscope.FileTree.Lookup.{node_access}
use stereoscope.FileTree.Nodes.{
  FileNode, new_dir, new_file, new_sym_link, new_hard_link, id_by_path, file_node_as_node,
  NodeAccess, LinkResolutionStrategy, file_node, has_file_node,
}
use stereoscope.FileTree.Resolve.{plain}
use stereoscope.Go.Maps.{put, keys}
use stereoscope.Tree
use stereoscope.Tree.{Tree, NodeId}
use stereoscope.Tree.Sizes.{longest}
use stereoscope.Tree.Remove.{remove_node}
use stereoscope.Prelude.{
  ℕ, suc, List, [], ◌∷◌, Option, none, some, true, false, byte_string_eq, str_eq, if◌then◌else◌,
}

-- `FileTree`, with the next file ID
pub record Files : Type 0 where
  pub tree : Tree FileNode
  pub next_id : ℕ

abbrev pub root_node : FileNode
root_node = new_dir root none

-- `New`; adding the root to an empty tree does not fail.
unfoldable pub new_file_tree : Tree FileNode
new_file_tree = elim (Tree.add_root root_node Tree.new_tree) [ err e ↦ Tree.new_tree | ok t ↦ t ]

-- `Copy`
unfoldable pub copy_file_tree : Tree FileNode → Tree FileNode
copy_file_tree t = Tree.copy_tree t

-- The tree of a result that changes nothing when it fails.
abbrev pub keep_tree : Files → Result (Tree FileNode) → Result (Unit {0}) × Files
keep_tree s (ok t) = (ok tt, record s { tree = t })
keep_tree s (err e) = (err e, s)

-- `setFileNode`
unfoldable pub set_file_node : FileNode → Tree FileNode → Result (Tree FileNode)
set_file_node fn t = elim (Tree.node (id_by_path fn.real_path) t) [
  | some existing ↦ Tree.replace existing fn t
  | none ↦ elim (parent_path fn.real_path) [
    | none ↦ err (no_parent fn.real_path)
    | some p ↦ elim (file_node (plain t p)) [
      | none ↦ err (parent_not_found p)
      | some parent ↦ Tree.add_child parent fn t
    ]
  ]
]

-- The constituent paths from the last one back to the first that is in the tree, which is left out.
unfoldable pub missing_paths : Tree FileNode → List FilePath → List FilePath
missing_paths t [] = []
missing_paths t (p ∷ ps) =
    let rest = missing_paths t ps in if has_file_node (some (plain t p)) then [] else p ∷ rest

-- Directories with no reference, one for each path.
unfoldable pub add_dirs : List FilePath → Act Files (Unit {0})
add_dirs [] s = (ok tt, s)
add_dirs (p ∷ ps) s = after (keep_tree s (set_file_node (new_dir p none) s.tree)) (λ _. add_dirs ps)

-- `addParentPaths`
unfoldable pub add_parent_paths : FilePath → Act Files (Unit {0})
add_parent_paths p s = elim (parent_path p) [
  | none ↦ (err (no_parent p), s)
  | some parent ↦
      if has_file_node (some (plain s.tree parent))
      then (ok tt, s)
      else add_dirs (reverse (missing_paths s.tree (reverse (constituent_paths p)))) s
]

-- `fna.FileNode.Reference = file.NewFileReference(realPath)`, unless there is one.
unfoldable pub ensure_reference : FilePath → FileNode → Act Files Reference
ensure_reference p n s = elim n.reference [
  | some r ↦ (ok r, s)
  | none ↦
      let (r, next_id) = new_file_reference p s.next_id in
      (
        ok r,
        record {
          tree = record s.tree {
            nodes = put (id_by_path n.real_path) (record n { reference = some r }) s.tree.nodes;
          };
          next_id = next_id;
        },
      )
]

-- The end of an addition at a new path: a reference, the node for it, and the node in the tree. Go
-- returns the reference beside an error too; no caller reads it there.
unfoldable pub add_new : FilePath → (Option Reference → FileNode) → Act Files Reference
add_new p make s =
    let (r, next_id) = new_file_reference p s.next_id in
    after (keep_tree (record s { next_id = next_id }) (set_file_node (make (some r)) s.tree))
      (λ _ s'. (ok r, s'))

-- What the four additions share: the kind that an existing node must have, and the new node.
unfoldable pub add_kind : FileType → FilePath → (Option Reference → FileNode) → Act Files Reference
add_kind kind p make s = elim (file_node (plain s.tree p)) [
  | some n ↦ if type_eq n.file_type kind then ensure_reference p n s else (err (wrong_type p), s)
  | none ↦ after (add_parent_paths p s) (λ _. add_new p make)
]

-- `AddFile`
unfoldable pub add_file : FilePath → Act Files Reference
add_file p = add_kind regular p (new_file p)

-- `AddSymLink`
unfoldable pub add_sym_link : FilePath → FilePath → Act Files Reference
add_sym_link p link = add_kind sym_link p (new_sym_link p link)

-- `AddHardLink`
unfoldable pub add_hard_link : FilePath → FilePath → Act Files Reference
add_hard_link p link = add_kind hard_link p (new_hard_link p link)

-- `AddDir`
unfoldable pub add_dir : FilePath → Act Files Reference
add_dir p = add_kind directory p (new_dir p)

-- Fuel for `RemoveNode`: a child has a longer path than its parent.
unfoldable pub remove_fuel : Tree FileNode → ℕ
remove_fuel t = suc (suc (longest (keys t.nodes)))

abbrev pub keep_removed : Files → Result (List FileNode) × Tree FileNode → Result (Unit {0}) × Files
keep_removed s (ok removed, t) = (ok tt, record s { tree = t })
keep_removed s (err e, t) = (err e, record s { tree = t })

unfoldable pub remove_in : FileNode → Act Files (Unit {0})
remove_in n s = keep_removed s (remove_node (remove_fuel s.tree) n s.tree)

unfoldable pub remove_all : List FileNode → Act Files (Unit {0})
remove_all [] s = (ok tt, s)
remove_all (n ∷ ns) s = after (remove_in n s) (λ _. remove_all ns)

abbrev pub ancestors_only : LinkResolutionStrategy
ancestors_only = record {
  ancestor_links = true;
  basename_links = false;
  no_dead_basename_links = false;
}

abbrev pub all_links : LinkResolutionStrategy
all_links = record { ancestor_links = true; basename_links = true; no_dead_basename_links = false }

-- What is done at the node of an access, if it has one.
abbrev pub at_node : Option NodeAccess → (FileNode → Act Files (Unit {0})) → Act Files (Unit {0})
at_node none act s = (ok tt, s)
at_node (some a) act s = elim (file_node a) [ none ↦ (ok tt, s) | some n ↦ act n s ]

-- `RemovePath`
unfoldable pub remove_path : FilePath → Act Files (Unit {0})
remove_path p s =
    let found = node_access s.tree p ancestors_only in
    if str_eq (normalize p) root
    then (err removing_root, s)
    else after (found, s) (λ a. at_node a remove_in)

unfoldable pub remove_children : FileNode → Act Files (Unit {0})
remove_children n s = remove_all (Tree.child_nodes n s.tree) s

-- `RemoveChildPaths`
unfoldable pub remove_child_paths : FilePath → Act Files (Unit {0})
unfolding remove_children
remove_child_paths p s = after (node_access s.tree p all_links, s) (λ a. at_node a remove_children)
