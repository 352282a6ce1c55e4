-- ===== src/FileTree/Reached.antt =====
-- What `node` of pkg/filetree/filetree.go finds, by the links that it follows.
use mathlib.Core.Option
use stereoscope.Errors.{Result, ok, err, ◌>>=◌, IsLinkFailure}
use stereoscope.File.CountSet.{PathCountSet}
use stereoscope.File.Paths.{FilePath, normalize}
use stereoscope.FileTree.Ancestors.{
  FromTree, MayBeFromTree, ResolvedParts, plain-FromTree, FromTree-access,
}
use stereoscope.FileTree.Links.{LoopDone, leads, node_links-LoopDone, path_links-ResolvedParts}
use stereoscope.FileTree.Lookup.{found_at, before_basename, at_basename, node_access}
use stereoscope.FileTree.Nodes.{
  FileNode, LinkResolutionStrategy, follow_links, NodeAccess, access, file_node, with_request,
  has_file_node,
}
use stereoscope.FileTree.Resolve.{max_link_resolution_depth}
use stereoscope.Tree
use stereoscope.Tree.{Tree, NodeId}
use stereoscope.Prelude.{
  [], Option, none, some, true, false, not, ◌&&◌, if-keeps, ◌≡◌, refl, ◌∙◌, arith,
}

-- What is found is in the tree. Where links at the basename and dead links are followed, it is no link
-- that leads somewhere. It fails with a link cycle or at the link depth only.
abbrev pub Found : Tree FileNode → LinkResolutionStrategy → Result (Option NodeAccess) → Type 0
Found t strategy (ok none) = Unit
Found t strategy (ok (some a)) =
    FromTree t (some a)
    × ((n : FileNode)
        → strategy.basename_links && not strategy.no_dead_basename_links ≡ true
        → file_node a ≡ some n
        → leads t n ≡ false)
Found t strategy (err e) = IsLinkFailure e

module _ (t : Tree FileNode) where
  abbrev Reached : Result (Option NodeAccess) → Type 0
  Reached (ok a) = MayBeFromTree t a
  Reached (err e) = IsLinkFailure e

  found_at-FromTree :
      (p : FilePath) (n : Option FileNode) → Tree.node p t ≡ n → MayBeFromTree t (found_at p n)
  found_at-FromTree p none h = tt
  found_at-FromTree p (some n) h = λ m e. (p, h ∙ e)

  Reached-parts :
      (x : Result (Option NodeAccess × Option PathCountSet))
      → ResolvedParts t none x
      → Reached (x >>= λ r. ok r.0)
  Reached-parts (ok (a, s)) h = FromTree-access t a h.0
  Reached-parts (err e) h = h

  before_basename-Reached :
      (strategy : LinkResolutionStrategy) (p : FilePath) → Reached (before_basename t strategy p)
  unfolding before_basename
  before_basename-Reached strategy p =
      if-keeps Reached strategy.ancestor_links _ _
        (λ e. Reached-parts _ (path_links-ResolvedParts t max_link_resolution_depth p none))
        (λ e. found_at-FromTree p (Tree.node p t) refl)

  from_links :
      (strategy : LinkResolutionStrategy) (s : PathCountSet)
      (x : Result (Option NodeAccess × PathCountSet))
      → LoopDone t (not strategy.no_dead_basename_links) s x
      → Found t strategy (x >>= λ r. ok r.0)
  from_links strategy s (ok (none, s')) h = tt
  from_links strategy s (ok (some a, s')) h = (h.0, λ n e. h.2 n (ground arith))
  from_links strategy s (err e) h = h

  not_entered :
      (strategy : LinkResolutionStrategy) (a : NodeAccess)
      → has_file_node (some a) && strategy.basename_links ≡ false
      → (n : FileNode) → strategy.basename_links && not strategy.no_dead_basename_links ≡ true
      → file_node a ≡ some n
      → leads t n ≡ false
  unfolding has_file_node
  not_entered strategy (access p none links) e n e' f = ground arith
  not_entered strategy (access p (some m) links) e n e' f = ground arith

  at_basename-Found :
      (strategy : LinkResolutionStrategy) (a : Option NodeAccess)
      → MayBeFromTree t a
      → Found t strategy (at_basename t strategy a)
  unfolding at_basename
  at_basename-Found strategy none h = tt
  at_basename-Found strategy (some a) h =
      if-keeps (Found t strategy) (has_file_node (some a) && strategy.basename_links) _ _
        (λ e. from_links strategy [] _ (
          node_links-LoopDone t max_link_resolution_depth (not strategy.no_dead_basename_links) a
            none h))
        (λ e. (h, not_entered strategy a e))

  requested-Found :
      (strategy : LinkResolutionStrategy) (p : FilePath) (x : Result (Option NodeAccess))
      → Found t strategy x
      → Found t strategy (x >>= λ a. ok (Option.map (with_request p) a))
  unfolding with_request
  requested-Found strategy p (ok none) h = tt
  requested-Found strategy p (ok (some (access q n links))) h = h
  requested-Found strategy p (err e) h = h

  bind-Found :
      (strategy : LinkResolutionStrategy) (x : Result (Option NodeAccess))
      (f : Option NodeAccess → Result (Option NodeAccess))
      → Reached x
      → ((a : Option NodeAccess) → MayBeFromTree t a → Found t strategy (f a))
      → Found t strategy (x >>= f)
  bind-Found strategy (ok a) f h g = g a h
  bind-Found strategy (err e) f h g = h

  -- `node` returns an access whose node, if there is one, is in the tree. If its strategy follows links at
  -- the basename, and dead links as well, that node is no link with a destination. It fails with a link
  -- cycle or at the link depth only.
  pub node_access-Found :
      (p : FilePath) (strategy : LinkResolutionStrategy)
      → Found t strategy (node_access t p strategy)
  unfolding node_access
  node_access-Found p strategy =
      if-keeps (Found t strategy) (not (follow_links strategy)) _ _
        (λ e. (plain-FromTree t p, λ n e' f. unfold follow_links in ground arith))
        (λ e.
          bind-Found strategy (before_basename t strategy (normalize p)) _
            (before_basename-Reached strategy (normalize p))
            (λ a h.
              requested-Found strategy (normalize p) (at_basename t strategy a)
                (at_basename-Found strategy a h)))
