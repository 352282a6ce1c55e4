-- ===== src/FileTree/Listings.antt =====
-- The listings of pkg/filetree/filetree.go: `AllFiles`, `AllRealPaths`, `ListPaths`, `PathDiff` and `Equal`.
use stereoscope.Errors.{Result, ok, err, ◌>>=◌, panics}
use stereoscope.File.Kinds.{FileType, regular, directory, type_eq, file_type_eq}
use stereoscope.File.Paths.{FilePath, basename}
use stereoscope.File.Refs.{Reference}
use stereoscope.File.Sets
use stereoscope.File.Sets.{IdSet}
use stereoscope.FileTree.Edit.{ancestors_only, all_links}
use stereoscope.FileTree.Lookup.{node_access}
use stereoscope.FileTree.Nodes.{FileNode, file_node_as_node, file_node_id, NodeAccess, file_node}
use stereoscope.Go.Maps.{elem}
use stereoscope.Go.Paths.{join_path}
use stereoscope.Tree
use stereoscope.Tree.{Tree, NodeId}
use stereoscope.Prelude.{
  List, [], ◌∷◌, map, Option, none, some, Bool, false, not, ◌&&◌, byte_string_eq, length, ◌==◌,
  if◌then◌else◌,
}

-- The kinds to look for: regular files, if none are given.
unfoldable pub wanted_types : List FileType → List FileType
wanted_types [] = regular ∷ []
wanted_types (k ∷ ks) = k ∷ ks

-- The loop of `AllFiles`.
unfoldable pub files_of : List FileType → List FileNode → List Reference
unfolding elem
files_of types [] = []
files_of types (n ∷ ns) =
    let rest = files_of types ns in
    elim n.reference [ none ↦ rest | some r ↦ if elem n.file_type types then r ∷ rest else rest ]

-- `AllFiles`
unfoldable pub all_files : List FileType → Tree FileNode → List Reference
all_files types t = files_of (wanted_types types) (Tree.all_nodes t)

-- `AllRealPaths`
unfoldable pub all_real_paths : Tree FileNode → List FilePath
all_real_paths t = map (λ (n : FileNode). n.real_path) (Tree.all_nodes t)

-- The path that a child has in a listing of `dir`; the lookup of a child that finds no node is a panic.
unfoldable pub listed_as : FilePath → Option FileNode → Result FilePath
listed_as dir none = err panics
listed_as dir (some n) = ok (join_path dir (basename n.real_path))

node_of_access : Option NodeAccess → Option FileNode
node_of_access none = none
node_of_access (some a) = file_node a

-- The loop of `ListPaths`.
unfoldable pub list_children : Tree FileNode → FilePath → List FileNode → Result (List FilePath)
unfolding node_of_access
list_children t dir [] = ok []
list_children t dir (c ∷ cs) =
    let rest = list_children t dir cs in
    do
      a ← node_access t c.real_path ancestors_only
      p ← listed_as dir (node_of_access a)
      ps ← rest
      ok (p ∷ ps)

-- What `ListPaths` lists at the node that it finds: nothing, unless that is a directory.
unfoldable pub list_at : Tree FileNode → FilePath → Option FileNode → Result (List FilePath)
list_at t dir none = ok []
list_at t dir (some n) =
    let children = list_children t dir (Tree.child_nodes n t) in
    if type_eq n.file_type directory then children else ok []

-- `ListPaths`
unfoldable pub list_paths : FilePath → Tree FileNode → Result (List FilePath)
unfolding node_of_access
list_paths dir t = node_access t dir all_links >>= λ a. list_at t dir (node_of_access a)

abbrev pub node_ids : Tree FileNode → List NodeId
node_ids t = map file_node_id (Tree.all_nodes t)

-- The IDs of the list that are not in the set.
unfoldable pub outside : IdSet NodeId → List NodeId → List NodeId
outside s [] = []
outside s (k ∷ ks) = let rest = outside s ks in if Sets.has_member s k then rest else k ∷ rest

-- `PathDiff`: the paths of the other tree alone, and those of this tree alone.
unfoldable pub path_diff : Tree FileNode → Tree FileNode → List FilePath × List FilePath
path_diff t other = (
  outside (Sets.new_set (node_ids t)) (node_ids other),
  outside (Sets.new_set (node_ids other)) (node_ids t),
)

-- `Equal`
unfoldable pub same_paths : Tree FileNode → Tree FileNode → Bool
same_paths t other =
    let (extra, missing) = path_diff t other in
    if not (Tree.tree_length t == Tree.tree_length other)
    then false
    else (length extra == 0) && (length missing == 0)
