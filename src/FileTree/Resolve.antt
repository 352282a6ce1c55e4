-- ===== src/FileTree/Resolve.antt =====
-- Lookups in pkg/filetree/filetree.go: `node`, `resolveAncestorLinks`, `resolveNodeLinks`, `file`,
-- `File` and `HasPath`. Where one of them fails, the access that Go returns beside the error is nil:
-- every error starts as `return nil, err`.
use mathlib.Core.Option
use stereoscope.Errors.{Result, ok, err, ◌>>=◌, link_cycle, link_depth, panics}
use stereoscope.File.CountSet.{PathCountSet, add_path, remove_path, contains_path}
use stereoscope.File.Paths.{FilePath, normalize}
use stereoscope.File.Sets
use stereoscope.File.Sets.{IdSet}
use stereoscope.FileTree.Nodes.{
  FileNode, is_link, render_link_destination, NodeAccess, access, nothing_before, file_node,
  with_request, with_links, has_file_node,
}
use stereoscope.Go.Strings.{slash, split}
use stereoscope.Tree
use stereoscope.Tree.{Tree}
use stereoscope.Prelude.{
  ℕ, zero, suc, List, [], ◌∷◌, ◌++◌, Option, none, some, Bool, true, false, not, ◌&&◌, Str, str_eq,
  byte_string_eq, if◌then◌else◌,
}

abbrev pub max_link_resolution_depth : ℕ
max_link_resolution_depth = 100

-- `node` with no links to follow
unfoldable pub plain : Tree FileNode → FilePath → NodeAccess
plain t p = access (normalize p) (Tree.node (normalize p) t) nothing_before

-- A resolver of the links at a node, with the set of paths that are being resolved.
abbrev pub Resolver : Type 0
Resolver = NodeAccess → Option PathCountSet → Result (Option NodeAccess × PathCountSet)

-- A nil set stays nil: what a callee does to a set of its own is not seen.
unfoldable pub keep_set : Option PathCountSet → PathCountSet → Option PathCountSet
keep_set none s = none
keep_set (some old) s = some s

-- The path to go on from: that of the node which a link leads to, if it is there.
unfoldable pub real_path_or : FilePath → Option NodeAccess → FilePath
real_path_or p none = p
real_path_or p (some (access q none links)) = p
real_path_or p (some (access q (some n) links)) = n.real_path

unfoldable pub has_reference : FileNode → Bool
has_reference n = elim n.reference [ none ↦ false | some r ↦ true ]

unfoldable pub is_last : List Str → Bool
is_last [] = true
is_last (p ∷ ps) = false

-- The loop of `resolveAncestorLinks` over the parts of the path.
unfoldable pub walk_parts :
    Tree FileNode
    → Resolver
    → List Str
    → Str
    → Option NodeAccess
    → Option PathCountSet
    → Result (Option NodeAccess × Option PathCountSet)
walk_parts t resolve [] current_path current set = ok (current, set)
walk_parts t resolve (part ∷ rest) current_path current set =
    let path = current_path ++ (slash ∷ part) in
    let here = plain t path in
    let skip = walk_parts t resolve rest current_path current set in
    let on = walk_parts t resolve rest path (some here) set in
    let through = λ (n : FileNode). resolve here set >>= λ r.
    walk_parts t resolve rest (real_path_or n.real_path r.0) r.0 (keep_set set r.1) in
    let found : Result (Option NodeAccess × Option PathCountSet) = elim (file_node here) [
      | none ↦ ok (some here, set)
      | some n ↦ if has_reference n && not (is_last rest) && is_link n then through n else on
    ] in
    if str_eq part [] then skip else found

-- `resolveAncestorLinks`, over the resolver of the links that it meets.
unfoldable pub ancestor_links :
    Tree FileNode
    → Resolver
    → FilePath
    → Option PathCountSet
    → Result (Option NodeAccess × Option PathCountSet)
ancestor_links t resolve path set =
    let here = plain t path in
    let parts = walk_parts t resolve (split path slash) [] (some here) set in
    if has_file_node (some here) then ok (some here, set) else parts

-- The variables of the loop in `resolveNodeLinks`.
pub record LinkLoop : Type 0 where
  pub node_path : List NodeAccess
  pub visited : IdSet FilePath
  pub next_path : FilePath
  pub last_node : Option NodeAccess
  pub current : NodeAccess
  pub resolving : PathCountSet

abbrev pub or_new_set : Option PathCountSet → PathCountSet
or_new_set none = []
or_new_set (some s) = s

unfoldable pub start_links : NodeAccess → Option PathCountSet → LinkLoop
start_links n set = record {
  node_path = [];
  visited = [];
  next_path = [];
  last_node = none;
  current = n;
  resolving = or_new_set set;
}

-- `nodePath[len(nodePath)-1].RequestPath = nextPath`
unfoldable pub request_last : FilePath → List NodeAccess → List NodeAccess
request_last p [] = []
request_last p (a ∷ []) = with_request p a ∷ []
request_last p (a ∷ b ∷ rest) = a ∷ request_last p (b ∷ rest)

-- What `resolveNodeLinks` does after its loop.
unfoldable pub finish : Bool → LinkLoop → Option NodeAccess
finish follow_dead s =
    if not (has_file_node (some s.current)) && not follow_dead
    then Option.map (with_links s.node_path) s.last_node
    else some (with_links s.node_path s.current)

unfoldable pub seen_path : LinkLoop → FileNode → Bool
seen_path s n = Sets.has_member s.visited n.real_path

-- The loop of `resolveNodeLinks`, by the depth that is left; `max_depth` counts down in it and is
-- handed on to every resolution inside.
unfoldable pub link_loop :
    Tree FileNode → ℕ → Bool → LinkLoop → Result (Option NodeAccess × PathCountSet)
link_loop t zero follow_dead s = err link_depth
link_loop t (suc zero) follow_dead s = err link_depth
link_loop t (suc (suc d)) follow_dead s =
    let node_path = s.node_path ++ s.current ∷ [] in
    let s1 = record s { node_path = node_path } in
    let dead : Result (Option NodeAccess × PathCountSet) = ok (
      finish follow_dead (record s { node_path = request_last s.next_path node_path }),
      s.resolving,
    ) in
    elim (file_node s.current) [
      | none ↦ dead
      | some n ↦
          let next_path = render_link_destination n in
          let resolver : Resolver = λ a set. link_loop t (suc d) true (start_links a set) in
          let inside =
            ancestor_links t resolver next_path (some (add_path next_path s.resolving)) in
          let again = λ (r : Option NodeAccess × Option PathCountSet).
            let next : Result (Option NodeAccess × PathCountSet) = elim r.0 [
              | none ↦ err panics
              | some a ↦ link_loop t (suc d) follow_dead (record {
                node_path = node_path;
                visited = Sets.add (n.real_path ∷ []) s.visited;
                next_path = next_path;
                last_node = some s.current;
                current = a;
                resolving = remove_path next_path (or_new_set r.1);
              })
            ] in
            next in
          let go = inside >>= again in
          if seen_path s n
          then err link_cycle
          else if not (is_link n)
          then ok (finish follow_dead s1, s.resolving)
          else if str_eq next_path []
          then ok (finish follow_dead s1, s.resolving)
          else if contains_path s.resolving next_path
          then err link_cycle
          else go
    ]

-- `resolveNodeLinks`
unfoldable pub node_links :
    Tree FileNode
    → ℕ
    → Bool
    → NodeAccess
    → Option PathCountSet
    → Result (Option NodeAccess × PathCountSet)
node_links t depth follow_dead n set = link_loop t depth follow_dead (start_links n set)
