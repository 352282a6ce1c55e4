-- ===== src/Search.antt =====
-- pkg/filetree/search.go: searches over a file tree and an index. A set of paths that is nil in Go is empty
-- here; the errors that Go wraps are passed on.
pub mod Context
pub mod Paths
pub mod Terminates
pub mod Sound
pub mod Unseen
use stereoscope.Errors.{Result, ok, err, ◌>>=◌, panics}
use stereoscope.File.Kinds.{FileType, sym_link, hard_link}
use stereoscope.File.Paths.{FilePath}
use stereoscope.File.Refs.{
  Reference, Resolution, has_reference, references, request_path, all_request_paths,
  resolution_less,
}
use stereoscope.File.Sets
use stereoscope.File.Sets.{IdSet}
use stereoscope.FileTree.Globbing.{GlobFs, files_by_glob}
use stereoscope.FileTree.Listings.{list_paths}
use stereoscope.FileTree.Lookup.{file, file_access}
use stereoscope.FileTree.Nodes.{
  FileNode, file_node_as_node, file_node_id, render_link_destination, NodeAccess, access,
  LinkResolutionOption, follow_basename_links,
}
use stereoscope.Glob.{
  SearchRequest, SearchBasis, by_full_path, by_basename, by_basename_glob, by_extension,
  by_sub_directory, by_glob, parse_glob,
}
use stereoscope.Go.Maps.{GoMap, get, put}
use stereoscope.Go.Sort.{sort}
use stereoscope.Index.{
  FileIndex, IndexEntry, get_by_file_type, get_by_mime_type, get_by_extension, get_by_basename,
  get_by_basename_glob,
}
use stereoscope.Search.Context.{SearchContext, ask}
use stereoscope.Search.Paths.{BackwardRefs, all_paths_to_node}
use stereoscope.Tree.{Tree, NodeId}
use stereoscope.Prelude.{
  ℕ, List, [], ◌∷◌, ◌++◌, Option, none, some, Bool, true, false, not, ◌==◌, Str, str_eq, codes,
  byte_string_eq, if◌then◌else◌,
}

-- A resolution that has a reference.
unfoldable pub with_reference : Option Resolution → List Resolution
with_reference none = []
with_reference (some r) = if has_reference (some r) then r ∷ [] else []

-- The resolutions of all paths to a node.
unfoldable pub expand : Tree FileNode → List FilePath → Result (List Resolution)
expand t [] = ok []
expand t (p ∷ ps) =
    let rest = expand t ps in
    do r ← file t p (follow_basename_links ∷ []); more ← rest; ok (with_reference r ++ more)

-- The resolution, once for each of its references that is the entry's.
unfoldable pub refer_to : ℕ → Resolution → List Reference → List Resolution
refer_to id r [] = []
refer_to id r (a ∷ as_) = let rest = refer_to id r as_ in if a.id == id then r ∷ rest else rest

unfoldable pub referring : ℕ → List Resolution → List Resolution
referring id [] = []
referring id (r ∷ rs) = refer_to id r (references r) ++ referring id rs

-- What `referencesInTree` finds for an entry at the access that its path leads to.
unfoldable pub references_at :
    SearchContext → IndexEntry → Option NodeAccess → Result (List Resolution)
references_at sc entry none = ok []
references_at sc entry (some (access q none links)) = ok []
references_at sc entry (some (access q (some n) links)) = do
  paths ← all_paths_to_node sc.tree sc.link_backward_refs n
  expanded ← expand sc.tree paths
  ok (referring entry.reference.id expanded)

-- `referencesInTree`
unfoldable pub references_in_tree : SearchContext → List IndexEntry → Result (List Resolution)
references_in_tree sc [] = ok []
references_in_tree sc (entry ∷ entries) =
    let rest = references_in_tree sc entries in
    do
      a ← file_access sc.tree entry.reference.real_path (follow_basename_links ∷ [])
      refs ← references_at sc entry a
      more ← rest
      ok (refs ++ more)

-- `SearchByPath`
unfoldable pub search_by_path :
    SearchContext → Str → List LinkResolutionOption → Result (Option Resolution)
search_by_path sc p options = file sc.tree p (options ++ follow_basename_links ∷ [])

unfoldable pub mime_entries : SearchContext → List Str → Result (List IndexEntry)
mime_entries sc [] = ok []
mime_entries sc (m ∷ ms) =
    let rest = mime_entries sc ms in
    do entries ← ask sc (get_by_mime_type (m ∷ [])); more ← rest; ok (entries ++ more)

-- `SearchByMIMEType`
unfoldable pub search_by_mime_type : SearchContext → List Str → Result (List Resolution)
unfolding mime_entries
search_by_mime_type sc types = do
  entries ← mime_entries sc types
  refs ← references_in_tree sc entries
  ok (sort resolution_less refs)

-- `glob`, `matches` and `is_match` are the searches and the tests of the packages doublestar and wildmatch-go.
module _ (glob : GlobFs → Str → Result (List Str)) (matches : Str → Str → Result Bool)
    (is_match : Str → Str → Bool) where
  -- The loop of `matchesRequirement`.
  unfoldable pub any_matches : Str → List FilePath → Result Bool
  any_matches requirement [] = ok false
  any_matches requirement (p ∷ ps) =
      let rest = any_matches requirement ps in
      matches requirement p >>= λ matched. if matched then ok true else rest

  -- `matchesRequirement`
  unfoldable pub matches_requirement : Resolution → Str → Result Bool
  matches_requirement r requirement = any_matches requirement (all_request_paths r)

  -- The resolutions that meet a requirement.
  unfoldable pub meeting : Str → List Resolution → Result (List Resolution)
  meeting requirement [] = ok []
  meeting requirement (r ∷ rs) =
      let rest = meeting requirement rs in
      do
        matched ← matches_requirement r requirement
        more ← rest
        ok (if matched then r ∷ more else more)

  -- `referencesWithRequirement`
  unfoldable pub references_with_requirement :
      SearchContext → Str → List IndexEntry → Result (List Resolution)
  references_with_requirement sc requirement entries = references_in_tree sc entries >>= λ refs.
      if str_eq requirement [] then ok refs else meeting requirement refs

  -- A child of a directory, if it has a reference and meets the requirement of the children.
  unfoldable pub nested : Str → Option Resolution → Result (List Resolution)
  nested requirement r = meeting (requirement ++ codes "/*") (with_reference r)

  unfoldable pub children_of : SearchContext → Str → List FilePath → Result (List Resolution)
  children_of sc requirement [] = ok []
  children_of sc requirement (p ∷ ps) =
      let rest = children_of sc requirement ps in
      do
        r ← file sc.tree p (follow_basename_links ∷ [])
        here ← nested requirement r
        more ← rest
        ok (here ++ more)

  -- The loop of `searchByParentBasename`; a path that has no listing is passed over.
  unfoldable pub below_parents : SearchContext → Str → List Resolution → Result (List Resolution)
  below_parents sc requirement [] = ok []
  below_parents sc requirement (r ∷ rs) =
      let rest = below_parents sc requirement rs in
      let with_listing = λ (ps : List FilePath).
        children_of sc requirement ps >>= λ here. rest >>= λ more. ok (here ++ more) in
      elim (list_paths (request_path r) sc.tree) [ err e ↦ rest | ok ps ↦ with_listing ps ]

  -- `searchByParentBasename`
  unfoldable pub search_by_parent_basename :
      SearchContext → SearchRequest → Result (List Resolution)
  search_by_parent_basename sc r = do
    entries ← ask sc (get_by_basename (r.value ∷ []))
    refs ← references_with_requirement sc r.requirement entries
    below_parents sc r.requirement refs

  one_resolution : Option Resolution → List Resolution
  one_resolution none = []
  one_resolution (some r) = r ∷ []

  -- The cases of `searchByRequest`.
  unfoldable pub search_on :
      SearchBasis
      → SearchContext
      → SearchRequest
      → List LinkResolutionOption
      → Result (List Resolution)
  unfolding one_resolution
  search_on by_full_path sc r options =
      search_by_path sc r.value (options ++ follow_basename_links ∷ []) >>= λ found.
      ok (one_resolution found)
  search_on by_basename sc r options =
      ask sc (get_by_basename (r.value ∷ [])) >>= references_with_requirement sc r.requirement
  search_on by_basename_glob sc r options =
      ask sc (get_by_basename_glob is_match (r.value ∷ []))
      >>= references_with_requirement sc r.requirement
  search_on by_extension sc r options =
      ask sc (get_by_extension (r.value ∷ [])) >>= references_with_requirement sc r.requirement
  search_on by_sub_directory sc r options = search_by_parent_basename sc r
  search_on by_glob sc r options =
      files_by_glob glob r.value (options ++ follow_basename_links ∷ []) sc.tree

  -- `searchByRequest`
  unfoldable pub search_by_request :
      SearchContext → SearchRequest → List LinkResolutionOption → Result (List Resolution)
  search_by_request sc r options = search_on r.basis sc r options

  unfoldable pub search_all :
      SearchContext → List SearchRequest → List LinkResolutionOption → Result (List Resolution)
  search_all sc [] options = ok []
  search_all sc (r ∷ rs) options =
      let rest = search_all sc rs options in
      do refs ← search_by_request sc r options; more ← rest; ok (refs ++ more)

  -- `SearchByGlob`
  unfoldable pub search_by_glob :
      SearchContext → Str → List LinkResolutionOption → Result (List Resolution)
  search_by_glob sc pattern options =
      let in_tree = files_by_glob glob pattern (options ++ follow_basename_links ∷ []) sc.tree in
      let with_index = search_all sc (parse_glob pattern) options in
      elim sc.index [ none ↦ in_tree | some c ↦ with_index ] >>= λ refs.
      ok (sort resolution_less refs)
