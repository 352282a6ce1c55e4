-- ===== src/FileTree/Visits.antt =====
-- What the visitor of `Merge` in pkg/filetree/filetree.go does at a node of the upper tree.
use mathlib.Core.Path.{subst}
use stereoscope.Errors.{Leaves, Result, ok, err, after}
use stereoscope.File.Paths.{FilePath, is_whiteout, un_whiteout_path}
use stereoscope.File.Paths.Canonical.{IsCanonical}
use stereoscope.FileTree.Edit.{Files, all_links, remove_path, remove_child_paths}
use stereoscope.FileTree.Keyed.{IsKeyed, KeyedFiles, remove_child_paths-IsKeyed}
use stereoscope.FileTree.Merge.{has_opaque_directory, graft, white_out, merge_visitor}
use stereoscope.FileTree.Nodes.{FileNode, NodeAccess, file_node, file_node_as_node}
use stereoscope.FileTree.Absent.{IsUnwritten, IsAbsent, white_out-IsAbsent, graft-IsAbsent}
use stereoscope.FileTree.Lookup.{node_access}
use stereoscope.Tree
use stereoscope.FileTree.Removes.{
  ChildrenGone, remove_child_paths-ChildrenGone, Within, RemovedAt, remove_child_paths-Within,
  remove_path-RemovedAt,
}
use stereoscope.Tree.{Tree}
use stereoscope.Prelude.{
  List, [], ◌∷◌, All, none, some, true, false, ◌≡◌, refl, sym, ◌∙◌, byte_string_eq, if-keeps,
  Option-keeps, if◌then◌else◌,
}
use stereoscope.FileTree.Grafts.{GraftOutcome, graft-GraftOutcome}

-- The first step of the visitor, at an opaque directory.
abbrev pub Opened : Tree FileNode → FileNode → Files → Files → Type 0
Opened t upper s s1 = Within s s1 × (has_opaque_directory t upper.real_path ≡ false → s1 ≡ s)

-- On success, a visit at an opaque directory leaves none of the children of the directory in the tree, but for those
-- that the visit writes itself.
abbrev pub Cleared : Tree FileNode → FileNode → Files → Result (Unit {0}) × Files → Type 0
Cleared t upper s (ok u, s') =
    has_opaque_directory t upper.real_path ≡ true
    → (a : NodeAccess) (n : FileNode) → node_access s.tree upper.real_path all_links ≡ ok (some a)
    → file_node a ≡ some n
    → All (λ c. IsUnwritten upper.real_path c.real_path → Tree.node c.real_path s'.tree ≡ none)
        (Tree.child_nodes n s.tree)
Cleared t upper s (err e, s') = Unit

-- What the visitor leaves at a node: behind its first step, a whiteout removes, and any other node is
-- grafted.
abbrev pub VisitOutcome : Tree FileNode → FileNode → Files → Result (Unit {0}) × Files → Type 0
VisitOutcome t upper s x =
    (s1 : Files) × (Opened t upper s s1)
    × ((p : FilePath)
        → is_whiteout upper.real_path ≡ true
        → un_whiteout_path upper.real_path ≡ some p
        → RemovedAt p s1 x)
    × (is_whiteout upper.real_path ≡ false → GraftOutcome upper s1 x)
    × Cleared t upper s x

white_out-RemovedAt :
    (upper : FileNode) (p : FilePath) (s : Files)
    → un_whiteout_path upper.real_path ≡ some p
    → RemovedAt p s (white_out upper s)
unfolding white_out
white_out-RemovedAt upper p s e =
    Option-keeps (RemovedAt p s) (un_whiteout_path upper.real_path) _ _ (λ e'. cc)
      (λ r e'. subst (λ r. RemovedAt p s (remove_path r s)) (same r e') (remove_path-RemovedAt p s))
  where
    same : (r : FilePath) → un_whiteout_path upper.real_path ≡ some r → p ≡ r
    same r e' = cc (sym e ∙ e')

-- Behind the first step, a path that the visit does not write stays out of the tree.
visit-IsAbsent :
    (q : FilePath) (upper : FileNode) (s : Files)
    → IsUnwritten upper.real_path q
    → IsAbsent q s
    → Leaves (IsAbsent q) (if is_whiteout upper.real_path then white_out upper s else graft upper s)
visit-IsAbsent q upper s other h =
    if-keeps (Leaves (IsAbsent q)) (is_whiteout upper.real_path) _ _
      (λ e. white_out-IsAbsent q upper s h) (λ e. graft-IsAbsent q upper s other h)

-- What is left of nodes that were gone behind the first step.
still_gone :
    (p : FilePath) (s s' : Files)
    → ((q : FilePath) → IsUnwritten p q → Tree.node q s.tree ≡ none → Tree.node q s'.tree ≡ none)
    → (cs : List FileNode) → All (λ c. Tree.node c.real_path s.tree ≡ none) cs
    → All (λ c. IsUnwritten p c.real_path → Tree.node c.real_path s'.tree ≡ none) cs
still_gone p s s' stays [] h = tt
still_gone p s s' stays (c ∷ cs) h =
    (λ other. stays c.real_path other h.0, still_gone p s s' stays cs h.1)

visit-Cleared :
    (t : Tree FileNode) (upper : FileNode) (s s1 : Files)
    → (has_opaque_directory t upper.real_path ≡ true → ChildrenGone upper.real_path s (ok tt, s1))
    → (x : Result (Unit {0}) × Files)
    → ((q : FilePath)
        → IsUnwritten upper.real_path q
        → Tree.node q s1.tree ≡ none
        → Tree.node q x.1.tree ≡ none)
    → Cleared t upper s x
visit-Cleared t upper s s1 gone (ok u, s') stays = λ o a n e at.
    still_gone upper.real_path s1 s' stays (Tree.child_nodes n s.tree) (gone o a n e at)
visit-Cleared t upper s s1 gone (err e, s') stays = tt

visited :
    (t : Tree FileNode) (upper : FileNode) (s : Files)
    → IsCanonical upper.real_path
    → (x : Result (Unit {0}) × Files) → Opened t upper s x.1
    → IsKeyed x.1.tree
    → (has_opaque_directory t upper.real_path ≡ true → ChildrenGone upper.real_path s x)
    → VisitOutcome t upper s (
        after x
          (λ _ s1. if is_whiteout upper.real_path then white_out upper s1 else graft upper s1))
visited t upper s c (ok u, s1) opened keyed gone = (
  s1,
  opened,
  (λ p w e. rw w (white_out-RemovedAt upper p s1 e)),
  (λ w. rw w (graft-GraftOutcome upper c s1 keyed)),
  visit-Cleared t upper s s1 gone
      (if is_whiteout upper.real_path then white_out upper s1 else graft upper s1)
      (λ q other h. (visit-IsAbsent q upper s1 other (keyed, h)).1),
)
visited t upper s c (err e, s1) opened keyed gone =
    (s1, opened, (λ p w e' q m h. h), (λ w clears q m h. h), tt)

-- At a node with a canonical path, over a tree with every node under its own path, the visitor of `Merge`
-- first adds nothing at an opaque directory, and leaves the tree as it is at any other. If it returns no error
-- at an opaque directory, the node that the path leads to, all links followed, has none of its former children
-- in the tree, but for those at the path of the visited node or at one of its constituent paths. A whiteout
-- removes what stands at the path that it names, as `RemovePath` does. Any other node, if there is no
-- error, is in the tree at its path, with its kind, its link and its reference, or with the reference of
-- the node that was there, if it has none itself and the kind is the same. Where no directory gives
-- way to that node, all other nodes stay, and on an error all nodes.
pub merge_visitor-VisitOutcome :
    (t : Tree FileNode) (upper : FileNode) (s : Files)
    → IsCanonical upper.real_path
    → IsKeyed s.tree
    → VisitOutcome t upper s (merge_visitor t upper s)
unfolding merge_visitor
merge_visitor-VisitOutcome t upper s c keyed =
    visited t upper s c
      (if has_opaque_directory t upper.real_path
        then remove_child_paths upper.real_path s
        else (ok tt, s))
      (if-keeps (Leaves (Opened t upper s)) (has_opaque_directory t upper.real_path) _ _
        (λ e. (remove_child_paths-Within s upper.real_path s (λ q m h. h), λ e'. cc))
        (λ e. ((λ q m h. h), λ e'. refl)))
      (if-keeps (Leaves KeyedFiles) (has_opaque_directory t upper.real_path) _ _
        (λ e. remove_child_paths-IsKeyed upper.real_path s keyed) (λ e. keyed))
      (λ o. rw o (remove_child_paths-ChildrenGone upper.real_path s))
