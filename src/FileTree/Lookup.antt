-- ===== src/FileTree/Lookup.antt =====
-- `node`, `file`, `File` and `HasPath` of pkg/filetree/filetree.go.
use mathlib.Core.Option
use stereoscope.Errors.{Result, ok, err, ◌>>=◌}
use stereoscope.File.Paths.{FilePath, normalize}
use stereoscope.File.Refs.{Resolution}
use stereoscope.FileTree.Nodes.{
  FileNode, is_link, LinkResolutionOption, LinkResolutionStrategy, new_link_resolution_strategy,
  follow_links, NodeAccess, access, nothing_before, file_node, with_request, has_file_node,
  file_resolution,
}
use stereoscope.FileTree.Resolve.{max_link_resolution_depth, plain, ancestor_links, node_links}
use stereoscope.Tree
use stereoscope.Tree.{Tree}
use stereoscope.Prelude.{
  List, Option, none, some, Bool, true, false, not, ◌&&◌, ◌||◌, if◌then◌else◌,
}

abbrev pub found_at : FilePath → Option FileNode → Option NodeAccess
found_at p none = none
found_at p (some n) = some (access p (some n) nothing_before)

-- The first half of `node`: what the ancestors of the path lead to.
unfoldable pub before_basename :
    Tree FileNode → LinkResolutionStrategy → FilePath → Result (Option NodeAccess)
before_basename t strategy p =
    if strategy.ancestor_links
    then (ancestor_links t (node_links t max_link_resolution_depth true) p none >>= λ r. ok r.0)
    else ok (found_at p (Tree.node p t))

-- The second half: the links at the basename.
unfoldable pub at_basename :
    Tree FileNode → LinkResolutionStrategy → Option NodeAccess → Result (Option NodeAccess)
at_basename t strategy none = ok none
at_basename t strategy (some a) =
    if has_file_node (some a) && strategy.basename_links
    then (node_links t max_link_resolution_depth (not strategy.no_dead_basename_links) a none
        >>= λ r. ok r.0)
    else ok (some a)

-- `node`
unfoldable pub node_access :
    Tree FileNode → FilePath → LinkResolutionStrategy → Result (Option NodeAccess)
node_access t p strategy = if not (follow_links strategy) then ok (some (plain t p)) else do
  current ← before_basename t strategy (normalize p)
  final ← at_basename t strategy current
  ok (Option.map (with_request (normalize p)) final)

-- Whether `file` is done without resolving a link.
unfoldable pub is_direct : Option FileNode → Bool → Bool
is_direct none follow = false
is_direct (some n) follow = not (is_link n) || is_link n && not follow

unfoldable pub keep_found : Option NodeAccess → Option NodeAccess
keep_found a = if has_file_node a then a else none

-- `file`
unfoldable pub file_access :
    Tree FileNode → FilePath → List LinkResolutionOption → Result (Option NodeAccess)
unfolding is_direct keep_found
file_access t p options =
    let user = new_link_resolution_strategy options in
    let direct = plain t p in
    if is_direct (file_node direct) user.basename_links then ok (some direct) else do
      found ← node_access t p (record {
        ancestor_links = true;
        basename_links = user.basename_links;
        no_dead_basename_links = user.no_dead_basename_links;
      })
      ok (keep_found found)

-- `File`: the resolution of a path that exists.
unfoldable pub file :
    Tree FileNode → FilePath → List LinkResolutionOption → Result (Option Resolution)
file t p options = file_access t p options >>= λ a. ok (file_resolution a)

exists_in : Result (Option Resolution) → Bool
exists_in (err e) = false
exists_in (ok none) = false
exists_in (ok (some r)) = true

-- `HasPath`
unfoldable pub has_path : Tree FileNode → FilePath → List LinkResolutionOption → Bool
unfolding exists_in
has_path t p options = exists_in (file t p options)
