-- ===== src/Search/Context.antt =====
-- The context of the searches in pkg/filetree/search.go, with its index of links.
use stereoscope.Errors.{Result, ok, err, ◌>>=◌, panics}
use stereoscope.File.Kinds.{sym_link, hard_link}
use stereoscope.File.Sets
use stereoscope.File.Sets.{IdSet}
use stereoscope.FileTree.Lookup.{file_access}
use stereoscope.FileTree.Nodes.{
  FileNode, file_node_as_node, file_node_id, render_link_destination, NodeAccess, access,
}
use stereoscope.Go.Maps.{get, put}
use stereoscope.Index.{FileIndex, IndexEntry, get_by_file_type}
use stereoscope.Search.Paths.{BackwardRefs}
use stereoscope.Tree.{Tree}
use stereoscope.Prelude.{
  List, [], ◌∷◌, ◌++◌, Option, none, some, Bool, false, ◌==◌, byte_string_eq, if◌then◌else◌,
}

-- `searchContext`; the index may be nil.
pub record SearchContext : Type 0 where
  pub tree : Tree FileNode
  pub index : Option FileIndex
  pub link_backward_refs : BackwardRefs

-- Whether a node has the reference of the entry.
unfoldable pub is_entry_of : IndexEntry → FileNode → Bool
is_entry_of entry n = elim n.reference [ none ↦ false | some r ↦ r.id == entry.reference.id ]

-- The node of an access, if it is that of the entry.
unfoldable pub node_of_entry : IndexEntry → Option NodeAccess → List FileNode
node_of_entry entry none = []
node_of_entry entry (some (access q none links)) = []
node_of_entry entry (some (access q (some n) links)) = if is_entry_of entry n then n ∷ [] else []

-- `fileNodesInTree`
unfoldable pub file_nodes_in_tree : Tree FileNode → List IndexEntry → Result (List FileNode)
file_nodes_in_tree t [] = ok []
file_nodes_in_tree t (entry ∷ entries) =
    let rest = file_nodes_in_tree t entries in
    do
      a ← file_access t entry.reference.real_path []
      more ← rest
      ok (node_of_entry entry a ++ more)

-- A backward reference from the node that the link leads to, if there is one.
unfoldable pub add_backward : FileNode → Option NodeAccess → BackwardRefs → BackwardRefs
add_backward link none refs = refs
add_backward link (some (access q none links)) refs = refs
add_backward link (some (access q (some n) links)) refs =
    put (file_node_id n)
      (Sets.add (file_node_id link ∷ [])
        (elim (get (file_node_id n) refs) [ none ↦ [] | some s ↦ s ]))
      refs

-- The loop of `buildLinkResolutionIndex`: the references so far are kept when it fails.
unfoldable pub link_back :
    Tree FileNode → List FileNode → BackwardRefs → Result (Unit {0}) × BackwardRefs
link_back t [] refs = (ok tt, refs)
link_back t (link ∷ links) refs = elim (file_access t (render_link_destination link) []) [
  | err e ↦ (err e, refs)
  | ok a ↦ link_back t links (add_backward link a refs)
]

-- `buildLinkResolutionIndex`
unfoldable pub build_link_resolution_index :
    Tree FileNode → FileIndex → Result (Unit {0}) × BackwardRefs
build_link_resolution_index t c =
    elim (get_by_file_type (sym_link ∷ hard_link ∷ []) c >>= file_nodes_in_tree t) [
      | err e ↦ (err e, [])
      | ok nodes ↦ link_back t nodes []
    ]

-- `NewSearchContext`: an error of the link index is logged, and the context serves without the rest; an index
-- that is nil is a panic.
unfoldable pub new_search_context : Tree FileNode → Option FileIndex → Result SearchContext
new_search_context t none = err panics
new_search_context t (some c) =
    ok (record {
      tree = t;
      index = some c;
      link_backward_refs = (build_link_resolution_index t c).1;
    })

-- A call of the index; one that is nil panics.
unfoldable pub ask : {A : Type 0} → SearchContext → (FileIndex → Result A) → Result A
ask sc question = elim sc.index [ none ↦ err panics | some c ↦ question c ]
