-- ===== src/FileTree/Found.antt =====
-- What `file` of pkg/filetree/filetree.go find, by the links that it follows.

use mathlib.Core.Path.{subst}
use stereoscope.Errors.{Result, ok, err, ◌>>=◌, panics, link_cycle, link_depth, IsLinkFailure}
use stereoscope.File.Paths.{FilePath}
use stereoscope.FileTree.Ancestors.{plain-FromTree}
use stereoscope.FileTree.Links.{leads_of, leads}
use stereoscope.FileTree.Lookup.{node_access, is_direct, keep_found, file_access}
use stereoscope.FileTree.Nodes.{
  FileNode, is_link, render_link_destination, LinkResolutionOption, LinkResolutionStrategy,
  new_link_resolution_strategy, NodeAccess, access, file_node, has_file_node,
}
use stereoscope.FileTree.Resolve.{plain}
use stereoscope.Tree
use stereoscope.Tree.{Tree, NodeId}
use stereoscope.FileTree.Reached.{Found, node_access-Found}
use stereoscope.Prelude.{
  str_eq, List, [], Option, none, some, Bool, true, false, not, ◌&&◌, if-keeps, ◌≡◌, ◌≢◌, refl,
  arith, ◌⊎◌, inl, inr,
}

module _ (t : Tree FileNode) where
  -- What `file` returns: an access with a node, or nil, or an error.
  abbrev pub IsFile : LinkResolutionStrategy → Result (Option NodeAccess) → Type 0
  IsFile strategy (ok none) = Unit
  IsFile strategy (ok (some a)) = (has_file_node (some a) ≡ true) × Found t strategy (ok (some a))
  IsFile strategy (err e) = IsLinkFailure e

  -- The user's strategy, with the ancestors' links followed.
  abbrev with_ancestors : LinkResolutionStrategy → LinkResolutionStrategy
  with_ancestors user = record {
    ancestor_links = true;
    basename_links = user.basename_links;
    no_dead_basename_links = user.no_dead_basename_links;
  }

  kept :
      (user : LinkResolutionStrategy) (x : Result (Option NodeAccess))
      → Found t (with_ancestors user) x
      → IsFile user (x >>= λ a. ok (keep_found a))
  unfolding keep_found has_file_node
  kept user (ok none) h = tt
  kept user (ok (some (access p none links))) h = tt
  kept user (ok (some (access p (some n) links))) h = (refl, h)
  kept user (err e) h = h

  direct_has_node :
      (a : NodeAccess) (follow : Bool)
      → is_direct (file_node a) follow ≡ true
      → has_file_node (some a) ≡ true
  unfolding is_direct has_file_node
  direct_has_node (access p none links) follow e = e
  direct_has_node (access p (some n) links) follow e = refl

  direct_end :
      (user : LinkResolutionStrategy) (a : NodeAccess)
      → is_direct (file_node a) user.basename_links ≡ true
      → (n : FileNode) → user.basename_links && not user.no_dead_basename_links ≡ true
      → file_node a ≡ some n
      → leads t n ≡ false
  unfolding is_direct
  direct_end user (access p none links) e n f e' = ground arith
  direct_end user (access p (some m) links) e n f e' =
      leads_of t (some m) m n refl e' (ground arith)

  -- `file` returns nil, or an access with a node, which is in the tree. If the options follow links at the
  -- basename, and dead links as well, that node is no link with a destination. It fails with a link
  -- cycle or at the link depth only.
  pub file_access-IsFile :
      (p : FilePath) (options : List LinkResolutionOption)
      → IsFile (new_link_resolution_strategy options) (file_access t p options)
  unfolding file_access
  file_access-IsFile p options =
      if-keeps (IsFile user) (is_direct (file_node (plain t p)) user.basename_links) _ _
        (λ e. (
          direct_has_node (plain t p) user.basename_links e,
          (plain-FromTree t p, direct_end user (plain t p) e),
        ))
        (λ e.
          kept user (node_access t p (with_ancestors user))
            (node_access-Found t p (with_ancestors user)))
    where
      user : LinkResolutionStrategy
      user = new_link_resolution_strategy options

  -- An access that `file` returns has a node, which is in the tree.
  pub file_access-node :
      (p : FilePath) (options : List LinkResolutionOption) (a : NodeAccess)
      → file_access t p options ≡ ok (some a)
      → (n : FileNode) × (file_node a ≡ some n) × ((k : NodeId) × (Tree.node k t ≡ some n))
  unfolding has_file_node
  file_access-node p options a e =
      with_node a
        (subst (IsFile (new_link_resolution_strategy options)) e (file_access-IsFile p options))
    where
      with_node :
          (b : NodeAccess)
          → IsFile (new_link_resolution_strategy options) (ok (some b))
          → (n : FileNode) × (file_node b ≡ some n) × ((k : NodeId) × (Tree.node k t ≡ some n))
      with_node (access q none links) h = absurd (cc h.0)
      with_node (access q (some n) links) h = (n, refl, h.1.0 n refl)

  -- If the options follow links at the basename, and dead links as well, then no access that `file` returns has
  -- a link with a destination for its node.
  pub file_access-end :
      (p : FilePath) (options : List LinkResolutionOption) (a : NodeAccess) (n : FileNode)
      → (new_link_resolution_strategy options).basename_links ≡ true
      → (new_link_resolution_strategy options).no_dead_basename_links ≡ false
      → file_access t p options ≡ ok (some a)
      → file_node a ≡ some n
      → is_link n && not (str_eq (render_link_destination n) []) ≡ false
  file_access-end p options a n follow dead e at =
      (subst (IsFile (new_link_resolution_strategy options)) e (file_access-IsFile p options)).1.1 n
        (ground (arith, follow, dead)) at

  -- `file` returns, or it fails with a link cycle or at the link depth.
  pub file_access-fails :
      (p : FilePath) (options : List LinkResolutionOption)
      → ((a : Option NodeAccess) × (file_access t p options ≡ ok a))
        ⊎ ((file_access t p options ≡ err link_cycle) ⊎ (file_access t p options ≡ err link_depth))
  file_access-fails p options = go (file_access t p options) (file_access-IsFile p options)
    where
      go :
          (x : Result (Option NodeAccess))
          → IsFile (new_link_resolution_strategy options) x
          → ((a : Option NodeAccess) × (x ≡ ok a)) ⊎ ((x ≡ err link_cycle) ⊎ (x ≡ err link_depth))
      go (ok a) h = inl (a, refl)
      go (err e) (inl c) = inr (inl (rw c refl))
      go (err e) (inr c) = inr (inr (rw c refl))

  -- `file` does not panic: it follows no nil access.
  pub file_access-no_panic :
      (p : FilePath) (options : List LinkResolutionOption) → file_access t p options ≢ err panics
  file_access-no_panic p options e = elim (file_access-fails p options) [
    | inl (a, c) ↦ cc
    | inr (inl c) ↦ cc
    | inr (inr c) ↦ cc
  ]
