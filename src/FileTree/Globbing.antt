-- ===== src/FileTree/Globbing.antt =====
-- pkg/filetree/glob.go, the file system that the package doublestar searches, and `FilesByGlob` of
-- pkg/filetree/filetree.go, over the search of that package as an argument.
use Prim.Native.Nat.{bit_or}
use stereoscope.Errors.{Result, ok, err, ◌>>=◌, not_exist, no_glob}
use stereoscope.File.Kinds.{directory, sym_link, hard_link, type_eq, mode_dir, mode_symlink}
use stereoscope.File.Paths
use stereoscope.File.Paths.{FilePath, basename}
use stereoscope.File.Refs.{Resolution, new_resolution, resolution_less}
use stereoscope.File.Sets
use stereoscope.File.Sets.{IdSet}
use stereoscope.FileTree.Edit.{ancestors_only, all_links}
use stereoscope.FileTree.Lookup.{node_access}
use stereoscope.FileTree.Nodes.{
  FileNode, file_node_as_node, file_node_id, NodeAccess, access, leaf_links, new_resolutions,
  LinkResolutionOption, follow_ancestor_links, follow_basename_links,
  do_not_follow_dead_basename_links,
}
use stereoscope.Go.Paths.{join_path, base, is_abs}
use stereoscope.Go.Sort.{sort}
use stereoscope.Go.Strings.{slash}
use stereoscope.Tree
use stereoscope.Tree.{Tree}
use stereoscope.Prelude.{
  ℕ, zero, suc, ◌-◌, ◌^◌, List, [], ◌∷◌, ◌++◌, Option, none, some, Bool, true, false, ◌||◌, Str,
  codes, byte_string_eq, length, ltb, ◌==◌, if◌then◌else◌,
}

-- `fileinfoAdapter`
pub record FileInfo : Type 0 where
  pub virtual_path : FilePath
  pub info_node : FileNode

-- `Name`
unfoldable pub info_name : FileInfo → Str
info_name i = basename i.virtual_path

-- `IsDir`
unfoldable pub info_is_dir : FileInfo → Bool
info_is_dir i = type_eq i.info_node.file_type directory

-- `Mode`: 0o755, with the bits for directories and for links.
unfoldable pub info_mode : FileInfo → ℕ
unfolding info_is_dir
info_mode i =
    let plain : ℕ = 493 in
    let with_dir = if info_is_dir i then bit_or plain (2 ^ mode_dir) else plain in
    if type_eq i.info_node.file_type sym_link || type_eq i.info_node.file_type hard_link
    then bit_or with_dir (2 ^ mode_symlink)
    else with_dir

-- The set of the nodes that the paths lead to.
unfoldable pub nodes_on : Tree FileNode → List FilePath → IdSet FilePath → Result (IdSet FilePath)
nodes_on t [] s = ok s
nodes_on t (p ∷ ps) s = do
  a ← node_access t p all_links
  nodes_on t ps (elim a [
    | none ↦ s
    | some (access q none links) ↦ s
    | some (access q (some n) links) ↦ Sets.add (file_node_id n ∷ []) s
  ])

-- `isInPathResolutionLoop`
unfoldable pub in_resolution_loop : Str → Tree FileNode → Result Bool
in_resolution_loop p t = do
  s ← nodes_on t (Paths.all_paths p) []
  ok (ltb 1 (length (Paths.all_paths p) - Sets.size s))

-- The information on the node that was found, under the name that was asked for.
unfoldable pub info_of : Str → Option NodeAccess → Result FileInfo
info_of name none = err not_exist
info_of name (some (access q none links)) = err not_exist
info_of name (some (access q (some n) links)) = ok (record { virtual_path = name; info_node = n })

-- `Lstat`
unfoldable pub lstat : Tree FileNode → Str → Result FileInfo
lstat t name = node_access t name ancestors_only >>= info_of name

-- `Stat`, by whether dead links at the basename are left alone.
unfoldable pub stat : Tree FileNode → Bool → Str → Result FileInfo
stat t no_dead name =
    node_access t name
      (record { ancestor_links = true; basename_links = true; no_dead_basename_links = no_dead })
    >>= info_of name

-- The children that `Lstat` finds, at most as many as the limit, if there is one.
unfoldable pub entries_at : Tree FileNode → Str → Option ℕ → List FileNode → List FileInfo
entries_at t name limit [] = []
entries_at t name (some zero) (c ∷ cs) = []
entries_at t name (some (suc k)) (c ∷ cs) =
    let rest = entries_at t name (some k) cs in
    elim (lstat t (join_path name (base (file_node_id c)))) [ err e ↦ rest | ok i ↦ i ∷ rest ]
entries_at t name none (c ∷ cs) =
    let rest = entries_at t name none cs in
    elim (lstat t (join_path name (base (file_node_id c)))) [ err e ↦ rest | ok i ↦ i ∷ rest ]

unfoldable pub read_entries :
    Tree FileNode → Str → Option ℕ → Option NodeAccess → Result (List FileInfo)
read_entries t name limit none = ok []
read_entries t name limit (some (access q none links)) = ok []
read_entries t name limit (some (access q (some n) links)) = in_resolution_loop name t >>= λ looped.
    ok (if looped then [] else entries_at t name limit (Tree.child_nodes n t))

-- `ReadDir` of `fileAdapter`; a negative count is no limit.
unfoldable pub read_dir_of_file : Tree FileNode → Str → Option ℕ → Result (List FileInfo)
read_dir_of_file t name limit = node_access t name all_links >>= read_entries t name limit

-- `ReadDir` of `osAdapter`
unfoldable pub read_dir : Tree FileNode → Str → Result (List FileInfo)
read_dir t name = node_access t name all_links >>= read_entries t name none

-- What doublestar sees of a file tree.
pub record GlobFs : Type 0 where
  pub stat_file : Str → Result FileInfo
  pub list_dir : Str → Result (List FileInfo)
  pub list_open_file : Str → Option ℕ → Result (List FileInfo)

-- `osAdapter`
unfoldable pub os_adapter : Tree FileNode → Bool → GlobFs
os_adapter t no_dead = record {
  stat_file = stat t no_dead;
  list_dir = read_dir t;
  list_open_file = read_dir_of_file t;
}

-- A query from the root.
unfoldable pub rooted : Str → Str
rooted [] = []
rooted (c ∷ q) = if c == slash then c ∷ q else slash ∷ (c ∷ q)

is_no_dead : LinkResolutionOption → Bool
is_no_dead follow_ancestor_links = false
is_no_dead follow_basename_links = false
is_no_dead do_not_follow_dead_basename_links = true

unfoldable pub leaves_dead : List LinkResolutionOption → Bool
unfolding is_no_dead
leaves_dead [] = false
leaves_dead (o ∷ os) = is_no_dead o || leaves_dead os

-- The resolution of a match: of a file that is no directory.
unfoldable pub match_resolution : FilePath → Option NodeAccess → List Resolution
match_resolution p none = []
match_resolution p (some (access q none links)) = []
match_resolution p (some (access q (some n) links)) =
    if type_eq n.file_type directory
    then []
    else new_resolution p n.reference (new_resolutions (leaf_links (access q (some n) links))) ∷ []

unfoldable pub absolute : Str → FilePath
absolute p = if is_abs p then p else join_path (codes "/") p

-- The loop over the matches.
unfoldable pub resolve_matches : Tree FileNode → Bool → List Str → Result (List Resolution)
resolve_matches t no_dead [] = ok []
resolve_matches t no_dead (p ∷ ps) =
    let rest = resolve_matches t no_dead ps in
    do
      a ← node_access t (absolute p) (record {
        ancestor_links = true;
        basename_links = true;
        no_dead_basename_links = no_dead;
      })
      more ← rest
      ok (match_resolution (absolute p) a ++ more)

module _ (glob : GlobFs → Str → Result (List Str)) where
  -- `FilesByGlob`
  unfoldable pub files_by_glob :
      Str → List LinkResolutionOption → Tree FileNode → Result (List Resolution)
  files_by_glob [] options t = err no_glob
  files_by_glob (c ∷ q) options t = do
    matches ← glob (os_adapter t (leaves_dead options)) (rooted (c ∷ q))
    found ← resolve_matches t (leaves_dead options) matches
    ok (sort resolution_less found)
