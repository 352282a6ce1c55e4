-- ===== src/FileTree/Grafts.antt =====
-- What the visitor of `Merge` in pkg/filetree/filetree.go does at a node of the upper tree that is no whiteout.
use stereoscope.Errors.{Leaves, Result, ok, err, after}
use stereoscope.File.Kinds.{type_eq, type_eq_iff, directory}
use stereoscope.File.Paths.{FilePath}
use stereoscope.File.Paths.Canonical.{IsCanonical, normalize_of_IsCanonical}
use stereoscope.File.Refs.{Reference}
use stereoscope.FileTree.Parents.{add_parent_paths-StillThere}
use stereoscope.FileTree.Edit.{Files, keep_tree, set_file_node}
use stereoscope.FileTree.Keyed.{
  IsKeyed, HasNode, node-set_file_node, add_parent_paths-IsKeyed, remove_child_paths-IsKeyed,
}
use stereoscope.FileTree.Merge.{merged_node, replaces_directory, prepare, clear_directory, graft}
use stereoscope.FileTree.Nodes.{FileNode, file_node_as_node, file_node}
use stereoscope.FileTree.Resolve.{plain}
use stereoscope.Tree
use stereoscope.Tree.{Tree}
use stereoscope.Prelude.{
  Option, none, some, not, ◌&&◌, ◌≡◌, ◌≢◌, refl, sym, ap, ◌∙◌, byte_string_eq, str_eq_iff, arith,
  if-keeps,
}

-- No directory of `s` gives way to the node.
abbrev pub ClearsNothing : FileNode → Files → Type 0
ClearsNothing upper s =
    (old : FileNode)
    → HasNode s.tree upper.real_path old
    → old.file_type ≡ directory
    → upper.file_type ≡ directory

-- The node that a graft of `upper` puts at its path, over what `s` has there.
pub record IsMerge (upper : FileNode) (s : Files) (node : FileNode) : Type 0 where
  pub same_path : node.real_path ≡ upper.real_path
  pub same_kind : node.file_type ≡ upper.file_type
  pub same_link : node.link_path ≡ upper.link_path
  pub own : (r : Reference) → upper.reference ≡ some r → node.reference ≡ some r
  pub inherited :
      (old : FileNode)
      → HasNode s.tree upper.real_path old
      → upper.reference ≡ none
      → old.file_type ≡ upper.file_type
      → node.reference ≡ old.reference
  pub not_inherited :
      (old : FileNode)
      → HasNode s.tree upper.real_path old
      → old.file_type ≢ upper.file_type
      → node.reference ≡ upper.reference

-- What a graft of `upper` leaves of `s`.
abbrev pub GraftOutcome : FileNode → Files → Result (Unit {0}) × Files → Type 0
GraftOutcome upper s (ok u, s') =
    ((node : FileNode) × (HasNode s'.tree upper.real_path node) × (IsMerge upper s node))
    × (ClearsNothing upper s
        → (q : FilePath) (m : FileNode) → q ≢ upper.real_path
        → HasNode s.tree q m
        → HasNode s'.tree q m)
GraftOutcome upper s (err e, s') =
    ClearsNothing upper s → (q : FilePath) (m : FileNode) → HasNode s.tree q m → HasNode s'.tree q m

-- Every node stays if no directory gives way.
abbrev Prepared : FileNode → Files → Files → Type 0
Prepared upper s s' =
    IsKeyed s'.tree
    × (ClearsNothing upper s
        → (q : FilePath) (m : FileNode) → HasNode s.tree q m
        → HasNode s'.tree q m)

module _ (upper : FileNode) (c : IsCanonical upper.real_path) (s : Files)
    (keyed : IsKeyed s.tree) where
  abbrev lower : Option FileNode
  lower = file_node (plain s.tree upper.real_path)

  lower-at : lower ≡ Tree.node upper.real_path s.tree
  unfolding plain
  lower-at = ap (λ k. Tree.node k s.tree) (normalize_of_IsCanonical upper.real_path c)

  prepare-Prepared : (l : Option FileNode) → Prepared upper s (prepare l upper s).1
  unfolding prepare
  prepare-Prepared none = (
    add_parent_paths-IsKeyed upper.real_path s keyed,
    λ clears q m h. (add_parent_paths-StillThere q m upper.real_path s c (keyed, h)).1,
  )
  prepare-Prepared (some n) = (keyed, λ clears q m h. h)

  clear-Prepared :
      (l : Option FileNode) (s1 : Files)
      → l ≡ Tree.node upper.real_path s.tree
      → Prepared upper s s1
      → Leaves (Prepared upper s) (clear_directory l upper tt s1)
  unfolding clear_directory replaces_directory
  clear-Prepared none s1 e h = h
  clear-Prepared (some old) s1 e h =
      if-keeps (Leaves (Prepared upper s))
        (not (type_eq upper.file_type directory) && type_eq old.file_type directory) _ _
        (λ b. (
          remove_child_paths-IsKeyed upper.real_path s1 h.0,
          λ clears q m at. ground (
            arith,
            clears old (sym e),
            type_eq_iff upper.file_type directory,
            type_eq_iff old.file_type directory,
            b,
          ),
        ))
        (λ b. h)

  merged-IsMerge :
      (l : Option FileNode)
      → l ≡ Tree.node upper.real_path s.tree
      → IsMerge upper s (merged_node l upper)
  unfolding merged_node
  merged-IsMerge none e = record {
    same_path = refl;
    same_kind = refl;
    same_link = refl;
    own = λ r h. h;
    inherited = λ old h. cc (e ∙ h);
    not_inherited = λ old h k. refl;
  }
  merged-IsMerge (some old) e = record {
    same_path = ground arith;
    same_kind = ground arith;
    same_link = ground arith;
    own = λ r h. ground arith;
    inherited = λ old' h n k. ground (arith, e ∙ h, type_eq_iff upper.file_type old.file_type);
    not_inherited = λ old' h k. ground (arith, e ∙ h, type_eq_iff upper.file_type old.file_type);
  }

  cleared :
      (x : Result (Unit {0}) × Files)
      → Leaves (Prepared upper s) x
      → Leaves (Prepared upper s) (after x (clear_directory lower upper))
  cleared (ok u, s1) p = clear-Prepared lower s1 lower-at p
  cleared (err e, s1) p = p

  set-GraftOutcome :
      (s1 : Files) (n : FileNode) (x : Result (Tree FileNode))
      → IsMerge upper s n
      → Prepared upper s s1
      → set_file_node n s1.tree ≡ x
      → GraftOutcome upper s (keep_tree s1 x)
  set-GraftOutcome s1 n (ok t) m p e = (
    (
      n,
      ground (
        arith,
        node-set_file_node n s1.tree t upper.real_path p.0 e,
        m.same_path,
        str_eq_iff n.real_path upper.real_path,
      ),
      m,
    ),
    λ clears q k other at. ground (
      arith,
      node-set_file_node n s1.tree t q p.0 e,
      m.same_path,
      str_eq_iff n.real_path q,
      p.1 clears q k at,
    ),
  )
  set-GraftOutcome s1 n (err x) m p e = p.1

  go :
      (x : Result (Unit {0}) × Files)
      → Leaves (Prepared upper s) x
      → GraftOutcome upper s
          (after x (λ u s1. keep_tree s1 (set_file_node (merged_node lower upper) s1.tree)))
  go (ok u, s1) p =
      set-GraftOutcome s1 (merged_node lower upper) _ (merged-IsMerge lower lower-at) p refl
  go (err e, s1) p = p.1

  pub graft-GraftOutcome : GraftOutcome upper s (graft upper s)
  unfolding graft
  graft-GraftOutcome =
      go (after (prepare lower upper s) (clear_directory lower upper))
        (cleared (prepare lower upper s) (prepare-Prepared lower))
