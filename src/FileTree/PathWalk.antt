-- ===== src/FileTree/PathWalk.antt =====
-- pkg/filetree/depth_first_path_walker.go: a depth-first walk over the paths of a file tree, those through
-- links included. The visitor acts on a state of its own; the path and the node that Go returns beside an error
-- are left out.
use stereoscope.Errors.{Result, ok, err, ◌>>=◌, after, nil_node, traversal_depth, out_of_fuel}
use stereoscope.File.Paths.{FilePath, normalize, root}
use stereoscope.File.Sets
use stereoscope.File.Sets.{IdSet}
use stereoscope.FileTree.Listings.{list_paths}
use stereoscope.FileTree.Lookup.{node_access}
use stereoscope.FileTree.Nodes.{
  FileNode, NodeAccess, access, LinkResolutionOption, LinkResolutionStrategy,
  new_link_resolution_strategy, follow_ancestor_links, follow_basename_links,
  do_not_follow_dead_basename_links,
}
use stereoscope.Go.Sort.{sort}
use stereoscope.Go.Strings.{slash, count_byte, str_lt}
use stereoscope.Tree.{Tree}
use stereoscope.Prelude.{
  ℕ, zero, suc, List, [], ◌∷◌, ◌++◌, Option, none, some, Bool, true, false, not, ◌&&◌,
  byte_string_eq, leb, if◌then◌else◌,
}

abbrev pub max_dir_depth : ℕ
max_dir_depth = 500

-- `WalkConditions`; what is not given is `none`.
pub record PathConditions : Type 0 where
  pub should_terminate : Option (FilePath → FileNode → Bool)
  pub should_visit : Option (FilePath → FileNode → Bool)
  pub should_continue_branch : Option (FilePath → FileNode → Bool)
  pub link_options : Option (List LinkResolutionOption)

abbrev pub no_path_conditions : PathConditions
no_path_conditions = record {
  should_terminate = none;
  should_visit = none;
  should_continue_branch = none;
  link_options = none;
}

abbrev pub tells : Bool → Option (FilePath → FileNode → Bool) → FilePath → FileNode → Bool
tells default none p n = default
tells default (some f) p n = f p n

-- `DepthFirstPathWalker` without its tree, its visitor and its conditions.
pub record PathWalker (S : Type 0) : Type 0 where
  pub path_stack : List FilePath
  pub visited_paths : IdSet FilePath
  pub visitor_state : S

abbrev pub new_path_walker : {S : Type 0} → S → PathWalker S
new_path_walker s = record { path_stack = []; visited_paths = []; visitor_state = s }

abbrev pub PathVisitor : Type 0 → Type 0
PathVisitor S = FilePath → FileNode → S → Result (Unit {0}) × S

-- The strategy of the walk: the options that are given, or to follow links, but no dead ones.
unfoldable pub walk_strategy : Option (List LinkResolutionOption) → LinkResolutionStrategy
walk_strategy none =
    new_link_resolution_strategy
      (follow_ancestor_links ∷ do_not_follow_dead_basename_links ∷ follow_basename_links ∷ [])
walk_strategy (some options) = new_link_resolution_strategy (follow_ancestor_links ∷ options)

-- The node to visit; a path with no node is an error.
unfoldable pub node_at : FilePath → Option NodeAccess → Result FileNode
node_at p none = err (nil_node p)
node_at p (some (access q none links)) = err (nil_node p)
node_at p (some (access q (some n) links)) = ok n

unfoldable pub is_too_deep : FilePath → Bool
is_too_deep p = leb max_dir_depth (count_byte (normalize p) slash)

-- The children of a path in the order in which the stack gives them back.
unfoldable pub child_paths : Tree FileNode → FilePath → Result (List FilePath)
child_paths t p = list_paths p t >>= λ ps. ok (sort str_lt ps)

module _ {S : Type 0} (t : Tree FileNode) (visitor : PathVisitor S) (cond : PathConditions) where
  mark_path : FilePath → PathWalker S → Result (Unit {0}) × S → Result (Unit {0}) × PathWalker S
  mark_path p w (ok u, s) =
      (ok u, record w { visitor_state = s; visited_paths = Sets.add (p ∷ []) w.visited_paths })
  mark_path p w (err e, s) = (err e, record w { visitor_state = s })

  -- The part of the loop's body that visits a path, which is normalized.
  unfoldable pub visit_path : FilePath → FileNode → PathWalker S → Result (Unit {0}) × PathWalker S
  unfolding mark_path
  visit_path p n w =
      if not (Sets.has_member w.visited_paths p) && tells true cond.should_visit p n
      then mark_path p w (visitor p n w.visitor_state)
      else (ok tt, w)

  -- The loop of `Walk`: the path and the node at which it ends.
  unfoldable pub path_loop :
      ℕ
      → List FilePath
      → PathWalker S
      → FilePath × FileNode
      → Result (FilePath × FileNode) × PathWalker S
  path_loop fuel [] w last = (ok last, record w { path_stack = [] })
  path_loop zero (p ∷ stack) w last = (err out_of_fuel, record w { path_stack = p ∷ stack })
  path_loop (suc fuel) (p ∷ stack) w last =
      let w0 = record w { path_stack = stack } in
      let here = node_access t p (walk_strategy cond.link_options) >>= node_at p in
      after (here, w0)
        (λ n w1.
          let below : PathWalker S → Result (FilePath × FileNode) × PathWalker S = λ w2.
            after (child_paths t (normalize p), w2)
              (λ ps w3. path_loop fuel (ps ++ stack) w3 (normalize p, n)) in
          if is_too_deep p
          then (err traversal_depth, w1)
          else if tells false cond.should_terminate p n
          then (ok (p, n), w1)
          else after (visit_path (normalize p) n w1) (λ u w2.
            if tells true cond.should_continue_branch (normalize p) n
            then below w2
            else path_loop fuel stack w2 (normalize p, n)))

  -- `WalkAll` and `FileTree.Walk`: from the root. The node of `last` is of no path that is returned.
  unfoldable pub walk_paths : ℕ → PathWalker S → FileNode → Result (Unit {0}) × PathWalker S
  walk_paths fuel w unset =
      after (path_loop fuel (root ∷ w.path_stack) w (root, unset)) (λ last w'. (ok tt, w'))
