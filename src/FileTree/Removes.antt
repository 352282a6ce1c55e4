-- ===== src/FileTree/Removes.antt =====
-- What `RemovePath` and `RemoveChildPaths` of pkg/filetree/filetree.go leave of a tree.
use mathlib.Core.Path.{subst}
use stereoscope.Errors.{Act, Leaves, Result, ok, err, after, after-keeps}
use stereoscope.File.Paths.{FilePath, root, normalize}
use stereoscope.FileTree.Edit.{
  Files, remove_in, remove_all, remove_path, remove_child_paths, remove_children, keep_removed,
  remove_fuel, at_node, ancestors_only, all_links,
}
use stereoscope.FileTree.Lookup.{node_access}
use stereoscope.FileTree.Nodes.{FileNode, file_node_as_node, NodeAccess, file_node}
use stereoscope.Tree
use stereoscope.Tree.{Tree, NodeId}
use stereoscope.Tree.Remove.{remove_node}
use stereoscope.Tree.Shrinks.{Shrinks, remove_node-Shrinks, node-remove_node}
use stereoscope.Prelude.{
  List, [], ◌∷◌, Option, none, some, ◌≡◌, ◌≢◌, refl, ap, byte_string_eq, str_eq, str_eq_iff, arith,
  if-keeps, Option-keeps, Option-cases, All, sym, ◌∙◌, inl, inr,
}

-- The files have no node that `s0` does not have.
abbrev pub Within : Files → Files → Type 0
Within s0 s = Shrinks s0.tree s.tree

tree-keep_removed :
    (s : Files) (x : Result (List FileNode) × Tree FileNode) → (keep_removed s x).1.tree ≡ x.1
tree-keep_removed s (ok l, t) = refl
tree-keep_removed s (err e, t) = refl

-- What is not in the tree is not in a later one that has no other nodes.
pub Within-none :
    (q : NodeId) (s s' : Files)
    → Within s s'
    → Tree.node q s.tree ≡ none
    → Tree.node q s'.tree ≡ none
Within-none q s s' h gone = elim (Option-cases (Tree.node q s'.tree)) [
  | inl e ↦ e
  | inr (n, at) ↦ cc (sym gone ∙ h q n at)
]

-- What is kept at every node is kept at the node of an access.
at_node-keeps :
    (P : Files → Type 0) (a : Option NodeAccess) (act : FileNode → Act Files (Unit {0})) (s : Files)
    → ((n : FileNode) → P (act n s).1)
    → P s
    → P (at_node a act s).1
at_node-keeps P none act s each h = h
at_node-keeps P (some a) act s each h =
    Option-keeps (Leaves P) (file_node a) _ _ (λ e. h) (λ n e. each n)

remove_in-Within :
    (s0 : Files) (n : FileNode) (s : Files) → Within s0 s → Within s0 (remove_in n s).1
unfolding remove_in
remove_in-Within s0 n s h q m at = h q m (
    remove_node-Shrinks (remove_fuel s.tree) n s.tree q m
      (subst (λ t. Tree.node q t ≡ some m) (tree-keep_removed s _) at))

remove_all-Within :
    (s0 : Files) (ns : List FileNode) (s : Files) → Within s0 s → Within s0 (remove_all ns s).1
unfolding remove_all
remove_all-Within s0 [] s h = h
remove_all-Within s0 (n ∷ ns) s h =
    after-keeps (Within s0) (remove_in n s) _ (remove_in-Within s0 n s h)
      (λ u s'. remove_all-Within s0 ns s')

pub remove_child_paths-Within :
    (s0 : Files) (p : FilePath) (s : Files) → Within s0 s → Within s0 (remove_child_paths p s).1
unfolding remove_child_paths remove_children
remove_child_paths-Within s0 p s h =
    after-keeps (Within s0) (node_access s.tree p all_links, s) _ h
      (λ a s' h'.
        at_node-keeps (Within s0) a remove_children s'
          (λ n. remove_all-Within s0 (Tree.child_nodes n s'.tree) s' h') h')

-- What `RemovePath` leaves of `s`: no node that was not there, and on success none at the identity of
-- the node that was found, whose path is not the root.
abbrev pub RemovedAt : FilePath → Files → Result (Unit {0}) × Files → Type 0
RemovedAt p s (ok u, s') =
    Within s s'
    × ((normalize p ≢ root)
        × ((a : NodeAccess) (n : FileNode)
            → node_access s.tree p ancestors_only ≡ ok (some a)
            → file_node a ≡ some n
            → Tree.node n.real_path s'.tree ≡ none))
RemovedAt p s (err e, s') = Within s s'

-- Where `RemoveNode` succeeds, the node is gone.
gone_in :
    (n : FileNode) (s : Files) (x : Result (List FileNode) × Tree FileNode) {u : Unit {0}}
    {s' : Files}
    → remove_node (remove_fuel s.tree) n s.tree ≡ x
    → keep_removed s x ≡ (ok u, s')
    → Tree.node n.real_path s'.tree ≡ none
gone_in n s (ok removed, t) e h =
    subst (λ (y : Result (Unit {0}) × Files). Tree.node n.real_path y.1.tree ≡ none) h
      (node-remove_node (remove_fuel s.tree) n s.tree t e)
gone_in n s (err x, t) e h = cc

-- On success none of the nodes is in the tree.
abbrev AllGone : List FileNode → Result (Unit {0}) × Files → Type 0
AllGone ns (ok u, s') = All (λ n. Tree.node n.real_path s'.tree ≡ none) ns
AllGone ns (err e, s') = Unit

remove_all-AllGone : (ns : List FileNode) (s : Files) → AllGone ns (remove_all ns s)
unfolding remove_all remove_in
remove_all-AllGone [] s = tt
remove_all-AllGone (n ∷ ns) s = go (λ s1. remove_all-AllGone ns s1) (remove_in n s) refl
  where
    gone_too :
        (s1 : Files) (x : Result (Unit {0}) × Files)
        → Tree.node n.real_path s1.tree ≡ none
        → Within s1 x.1
        → AllGone ns x
        → AllGone (n ∷ ns) x
    gone_too s1 (ok u, s2) gone within rest = (Within-none n.real_path s1 s2 within gone, rest)
    gone_too s1 (err e, s2) gone within rest = tt

    go :
        ((s1 : Files) → AllGone ns (remove_all ns s1))
        → (x : Result (Unit {0}) × Files) → remove_in n s ≡ x
        → AllGone (n ∷ ns) (after x (λ _. remove_all ns))
    go rest (ok u, s1) e =
        gone_too s1 (remove_all ns s1)
          (gone_in n s (remove_node (remove_fuel s.tree) n s.tree) refl e)
          (remove_all-Within s1 ns s1 (λ q m h. h)) (rest s1)
    go rest (err x, s1) e = tt

-- What `RemoveChildPaths` leaves on success: the node that the path leads to, all links followed, has
-- none of its children left.
abbrev pub ChildrenGone : FilePath → Files → Result (Unit {0}) × Files → Type 0
ChildrenGone p s x =
    (a : NodeAccess) (n : FileNode)
    → node_access s.tree p all_links ≡ ok (some a)
    → file_node a ≡ some n
    → AllGone (Tree.child_nodes n s.tree) x

pub remove_child_paths-ChildrenGone :
    (p : FilePath) (s : Files) → ChildrenGone p s (remove_child_paths p s)
unfolding remove_child_paths remove_children
remove_child_paths-ChildrenGone p s a n e at = rw e (
    subst
      (λ found.
        AllGone (Tree.child_nodes n s.tree) (elim found as (λ y. Result (Unit {0}) × Files) [
          | none ↦ (ok tt, s)
          | some m ↦ remove_all (Tree.child_nodes m s.tree) s
        ]))
      (sym at) (remove_all-AllGone (Tree.child_nodes n s.tree) s))

module _ (p : FilePath) (s : Files) where
  same_node :
      (a b : NodeAccess) (n m : FileNode)
      → node_access s.tree p ancestors_only ≡ ok (some a)
      → node_access s.tree p ancestors_only ≡ ok (some b)
      → file_node a ≡ some n
      → file_node b ≡ some m
      → n ≡ m
  same_node a b n m e e' at at' = cc

  removed_node :
      (a : NodeAccess) (n : FileNode)
      → normalize p ≢ root
      → node_access s.tree p ancestors_only ≡ ok (some a)
      → file_node a ≡ some n
      → (x : Result (Unit {0}) × Files) → remove_in n s ≡ x
      → Within s x.1
      → RemovedAt p s x
  unfolding remove_in
  removed_node a n not_root e at (ok u, s') h within = (
    within,
    (
      not_root,
      λ b m e' at'.
          subst (λ k. Tree.node k s'.tree ≡ none)
            (ap (λ (f : FileNode). f.real_path) (same_node a b n m e e' at at'))
            (gone_in n s (remove_node (remove_fuel s.tree) n s.tree) refl h),
    ),
  )
  removed_node a n not_root e at (err x, s') h within = within

  at_access :
      (x : Option NodeAccess)
      → normalize p ≢ root
      → node_access s.tree p ancestors_only ≡ ok x
      → RemovedAt p s (at_node x remove_in s)
  at_access none not_root e = ((λ q m h. h), (not_root, λ a n e' at. cc))
  at_access (some a) not_root e =
      Option-keeps (RemovedAt p s) (file_node a) _ _
        (λ at. ((λ q m h. h), (not_root, λ b n e' at'. cc)))
        (λ n at.
          removed_node a n not_root e at (remove_in n s) refl (remove_in-Within s n s (λ q m h. h)))

  -- On every branch `RemovePath` leaves no node that was not there. If it succeeds, its path is not the
  -- root, and the node that the path leads to, links among its ancestors followed, is gone.
  pub remove_path-RemovedAt : RemovedAt p s (remove_path p s)
  unfolding remove_path
  remove_path-RemovedAt =
      if-keeps (RemovedAt p s) (str_eq (normalize p) root) _ _ (λ e q m h. h)
        (λ e.
          go (node_access s.tree p ancestors_only) refl
            (ground (arith, str_eq_iff (normalize p) root, e)))
    where
      go :
          (x : Result (Option NodeAccess))
          → node_access s.tree p ancestors_only ≡ x
          → normalize p ≢ root
          → RemovedAt p s (after (x, s) (λ a. at_node a remove_in))
      go (ok x) e not_root = at_access x not_root e
      go (err x) e not_root = λ q m h. h

  pub remove_path-Within : Within s (remove_path p s).1
  remove_path-Within = within (remove_path p s) remove_path-RemovedAt
    where
      within : (x : Result (Unit {0}) × Files) → RemovedAt p s x → Within s x.1
      within (ok u, s') h = h.0
      within (err e, s') h = h
