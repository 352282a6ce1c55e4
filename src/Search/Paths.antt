-- ===== src/Search/Paths.antt =====
-- `allPathsToNode` and `pathsToNode` of pkg/filetree/search.go: the paths by which a node is reached, over the
-- links to it and to the directories above it.
use stereoscope.Errors.{Result, ok, err, Act, after, out_of_fuel}
use stereoscope.File.Paths.{FilePath, basename, constituent_paths, root}
use stereoscope.File.Sets
use stereoscope.File.Sets.{IdSet}
use stereoscope.FileTree.Edit.{ancestors_only}
use stereoscope.FileTree.Lookup.{node_access}
use stereoscope.FileTree.Nodes.{FileNode, file_node_as_node, file_node_id, NodeAccess, access}
use stereoscope.Go.Maps.{GoMap, get, put}
use stereoscope.Go.Paths.{join_path}
use stereoscope.Go.Sort.{sort}
use stereoscope.Go.Strings.{str_lt}
use stereoscope.Tree
use stereoscope.Tree.{Tree, NodeId}
use stereoscope.Prelude.{
  ℕ, zero, suc, List, [], ◌∷◌, map, Option, none, some, Str, str_eq, byte_string_eq, length,
  if◌then◌else◌,
}

-- `linkBackwardRefs`: the links that lead to a node.
abbrev pub BackwardRefs : Type 0
BackwardRefs = GoMap NodeId (IdSet NodeId)

-- `observedPaths` and `cache`
pub record PathState : Type 0 where
  pub observed : IdSet FilePath
  pub cache : GoMap FilePath (Result (IdSet FilePath))

abbrev pub PathFinder : Type 0
PathFinder = FileNode → Act PathState (IdSet FilePath)

unfoldable pub links_to : BackwardRefs → FileNode → List NodeId
links_to refs n = elim (get (file_node_id n) refs) [ none ↦ [] | some s ↦ Sets.to_list s ]

-- The paths to the links that lead to a node, added to the paths so far; a link that is not in the tree is
-- passed over.
unfoldable pub from_links :
    Tree FileNode → PathFinder → List NodeId → IdSet FilePath → Act PathState (IdSet FilePath)
from_links t find [] paths s = (ok paths, s)
from_links t find (l ∷ ls) paths s = elim (Tree.node l t) [
  | none ↦ from_links t find ls paths s
  | some n ↦ after (find n s) (λ found. from_links t find ls (Sets.add (Sets.to_list found) paths))
]

-- What is added for the node of a parent, if it is in the tree.
unfoldable pub from_parent :
    PathFinder → Str → Option NodeAccess → IdSet FilePath → Act PathState (IdSet FilePath)
from_parent find suffix none paths s = (ok paths, s)
from_parent find suffix (some (access q none links)) paths s = (ok paths, s)
from_parent find suffix (some (access q (some n) links)) paths s =
    after (find n s)
      (λ found s'. (ok (Sets.add (map (λ p. join_path p suffix) (Sets.to_list found)) paths), s'))

-- The loop over the parents of a path, the longest first, with the suffix below them.
unfoldable pub from_parents :
    Tree FileNode
    → PathFinder
    → List FilePath
    → Str
    → IdSet FilePath
    → Act PathState (IdSet FilePath)
from_parents t find [] suffix paths s = (ok paths, s)
from_parents t find (p ∷ ps) suffix paths s =
    let next =
      after (node_access t p ancestors_only, s)
        (λ a s1.
          after (from_parent find suffix a paths s1)
            (λ paths'. from_parents t find ps (join_path (basename p) suffix) paths')) in
    if str_eq p root then (ok paths, s) else next

-- The loop over the paths that lead to the node or to one of its links.
unfoldable pub from_paths :
    Tree FileNode → PathFinder → List FilePath → IdSet FilePath → Act PathState (IdSet FilePath)
from_paths t find [] paths s = (ok paths, s)
from_paths t find (p ∷ ps) paths s =
    after
      (from_parents t find (sort (λ a b. str_lt b a) (constituent_paths p)) (basename p) paths s)
      (λ paths'. from_paths t find ps paths')

abbrev pub observe : FileNode → PathState → PathState
observe n s = record s { observed = Sets.add (n.real_path ∷ []) s.observed }

abbrev pub forget : FileNode → PathState → PathState
forget n s = record s { observed = Sets.remove (n.real_path ∷ []) s.observed }

-- `_pathsToNode`, over the finder that it calls
unfoldable pub find_paths : Tree FileNode → BackwardRefs → PathFinder → PathFinder
find_paths t refs find n s =
    if Sets.has_member s.observed n.real_path
    then (ok [], s)
    else after (from_links t find (links_to refs n) (Sets.add (n.real_path ∷ []) []) (observe n s))
        (λ paths s1.
          after (from_paths t find (Sets.to_list paths) paths s1)
            (λ paths' s2. (ok paths', forget n s2)))

-- The result is put in the cache, an error too.
abbrev pub remember :
    FileNode → Result (IdSet FilePath) × PathState → Result (IdSet FilePath) × PathState
remember n (r, s) = (r, record s { cache = put n.real_path r s.cache })

-- `pathsToNode`, on fuel
unfoldable pub paths_to_node : Tree FileNode → BackwardRefs → ℕ → PathFinder
paths_to_node t refs zero n s = (err out_of_fuel, s)
paths_to_node t refs (suc fuel) n s =
    let found = remember n (find_paths t refs (paths_to_node t refs fuel) n s) in
    elim (get n.real_path s.cache) [ some r ↦ (r, s) | none ↦ found ]

-- Each call inside another one has observed one node more.
unfoldable pub paths_fuel : Tree FileNode → ℕ
paths_fuel t = suc (suc (length t.nodes))

-- `allPathsToNode`
unfoldable pub all_paths_to_node : Tree FileNode → BackwardRefs → FileNode → Result (List FilePath)
all_paths_to_node t refs n =
    elim (paths_to_node t refs (paths_fuel t) n (record { observed = []; cache = [] })).0 [
      | err e ↦ err e
      | ok paths ↦ ok (sort str_lt (Sets.to_list paths))
    ]
