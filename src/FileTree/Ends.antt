-- ===== src/FileTree/Ends.antt =====
-- Removals, `Merge` and `Squash` of pkg/filetree end, on trees whose paths are canonical and grow downwards.
use mathlib.Core.Path.{subst}
use stereoscope.Errors.{Result, ok, err, ◌>>=◌, Act, after, Terminates, out_of_fuel}
use stereoscope.File.Paths.{FilePath, root, normalize, is_whiteout, un_whiteout_path}
use stereoscope.File.Paths.Canonical.{IsCanonical}
use stereoscope.FileTree.Edit.{
  Files, new_file_tree, keep_removed, remove_in, remove_all, remove_children, at_node, remove_path,
  remove_child_paths, remove_fuel, ancestors_only, all_links,
}
use stereoscope.FileTree.Formed.{
  HasCanonical, IsFormed, Kept, after-Kept, set-Kept, add_parent_paths-Kept,
}
use stereoscope.FileTree.Keyed.{IsKeyed}
use stereoscope.FileTree.Lookup.{node_access}
use stereoscope.FileTree.Merge.{
  has_opaque_directory, merge_conditions, merged_node, prepare, clear_directory, graft, white_out,
  merge_visitor, merge_fuel, merge, merge_all, squash,
}
use stereoscope.FileTree.Nodes.{
  FileNode, new_dir, file_node_as_node, file_node, NodeAccess, LinkResolutionStrategy,
}
use stereoscope.FileTree.Reached.{Found, node_access-Found}
use stereoscope.FileTree.Resolve.{plain}
use stereoscope.FileTree.Squash.{copy_file_tree-eq, new_file_tree-IsKeyed}
use stereoscope.Go.Strings.{join}
use stereoscope.Go.Maps.{get, put, values}
use stereoscope.Tree
use stereoscope.Tree.{Tree, child_map}
use stereoscope.Tree.Ends.{walk_all-Terminates}
use stereoscope.Tree.Growing.{Growing}
use stereoscope.Tree.Emptied.{remove_node-Terminates}
use stereoscope.Tree.Remove.{remove_node}
use stereoscope.Tree.Shrinks.{remove_node-Shrinks}
use stereoscope.Prelude.{
  ℕ, List, [], ◌∷◌, Option, none, some, byte_string_eq, str_eq, ◌≡◌, ◌≢◌, refl, sym, arith, All,
  if◌then◌else◌, Bool-cases, if-keeps, Option-keeps, inl, inr,
}

remove_in-Kept : (n : FileNode) (s : Files) → IsFormed s.tree → Kept (remove_in n s)
unfolding remove_in remove_fuel
remove_in-Kept n s formed =
    go (remove_node (remove_fuel s.tree) n s.tree)
      (remove_node-Terminates HasCanonical n s.tree formed.growing formed.canonical)
      (λ k m at. formed.keyed k m (remove_node-Shrinks (remove_fuel s.tree) n s.tree k m at))
  where
    go :
        (x : Result (List FileNode) × Tree FileNode)
        → Terminates x.0 × Growing x.1 × All HasCanonical (values x.1.nodes)
        → IsKeyed x.1
        → Kept (keep_removed s x)
    go (ok removed, t) h keyed = (tt, record { keyed = keyed; growing = h.1; canonical = h.2 })
    go (err e, t) h keyed = (h.0, record { keyed = keyed; growing = h.1; canonical = h.2 })

remove_all-Kept : (ns : List FileNode) (s : Files) → IsFormed s.tree → Kept (remove_all ns s)
unfolding remove_all
remove_all-Kept [] s formed = (tt, formed)
remove_all-Kept (n ∷ ns) s formed =
    after-Kept (remove_in n s) _ (remove_in-Kept n s formed) (λ u s'. remove_all-Kept ns s')

-- A lookup ends, and what is done at its node.
at_access-Kept :
    (p : FilePath) (strategy : LinkResolutionStrategy) (s : Files)
    (act : FileNode → Act Files (Unit {0}))
    → IsFormed s.tree
    → ((n : FileNode) → Kept (act n s))
    → Kept (after (node_access s.tree p strategy, s) (λ a. at_node a act))
at_access-Kept p strategy s act formed acts =
    go (node_access s.tree p strategy) (node_access-Found s.tree p strategy)
  where
    go :
        (x : Result (Option NodeAccess))
        → Found s.tree strategy x
        → Kept (after (x, s) (λ a. at_node a act))
    go (ok none) h = (tt, formed)
    go (ok (some a)) h = Option-keeps Kept (file_node a) _ _ (λ e. (tt, formed)) (λ n e. acts n)
    go (err e) (inl c) = ((λ x. cc), formed)
    go (err e) (inr c) = ((λ x. cc), formed)

-- `RemovePath` ends on a tree whose nodes stand under their own canonical paths, shorter ones above longer ones, and the
-- tree is of this kind still, whether it fails or not.
pub remove_path-Kept : (p : FilePath) (s : Files) → IsFormed s.tree → Kept (remove_path p s)
unfolding remove_path
remove_path-Kept p s formed =
    if-keeps Kept (str_eq (normalize p) root) _ _ (λ e. ((λ x. cc), formed))
      (λ e. at_access-Kept p ancestors_only s remove_in formed (λ n. remove_in-Kept n s formed))

pub remove_child_paths-Kept :
    (p : FilePath) (s : Files) → IsFormed s.tree → Kept (remove_child_paths p s)
unfolding remove_child_paths remove_children
remove_child_paths-Kept p s formed =
    at_access-Kept p all_links s remove_children formed
      (λ n. remove_all-Kept (Tree.child_nodes n s.tree) s formed)

merged_node-path :
    (lower : Option FileNode) (upper : FileNode)
    → (merged_node lower upper).real_path ≡ upper.real_path
unfolding merged_node
merged_node-path none upper = refl
merged_node-path (some lower) upper = ground arith

graft-Kept :
    (upper : FileNode) (s : Files) → HasCanonical upper → IsFormed s.tree → Kept (graft upper s)
unfolding graft
graft-Kept upper s c formed =
    after-Kept (after (prepare lower upper s) (clear_directory lower upper)) _
      (after-Kept (prepare lower upper s) _ (prepared lower) (λ u s1. cleared s1))
      (λ u s2 formed2.
        set-Kept (merged_node lower upper) s2 s2.next_id formed2
          (subst IsCanonical (sym (merged_node-path lower upper)) c))
  where
    lower : Option FileNode
    lower = file_node (plain s.tree upper.real_path)

    prepared : (l : Option FileNode) → Kept (prepare l upper s)
    prepared none = unfold prepare in add_parent_paths-Kept upper.real_path s c formed
    prepared (some n) = unfold prepare in (tt, formed)

    cleared : (s1 : Files) → IsFormed s1.tree → Kept (clear_directory lower upper tt s1)
    cleared s1 formed1 =
        unfold clear_directory in
        if-keeps Kept _ _ _ (λ e. remove_child_paths-Kept upper.real_path s1 formed1)
          (λ e. (tt, formed1))

white_out-Kept : (upper : FileNode) (s : Files) → IsFormed s.tree → Kept (white_out upper s)
unfolding white_out
white_out-Kept upper s formed =
    Option-keeps Kept (un_whiteout_path upper.real_path) _ _ (λ e. ((λ x. cc), formed))
      (λ p e. remove_path-Kept p s formed)

merge_visitor-Kept :
    (t : Tree FileNode) (upper : FileNode) (s : Files)
    → HasCanonical upper
    → IsFormed s.tree
    → Kept (merge_visitor t upper s)
unfolding merge_visitor
merge_visitor-Kept t upper s c formed =
    after-Kept
      (if has_opaque_directory t upper.real_path
        then remove_child_paths upper.real_path s
        else (ok tt, s))
      _
      (if-keeps Kept (has_opaque_directory t upper.real_path) _ _
        (λ e. remove_child_paths-Kept upper.real_path s formed) (λ e. (tt, formed)))
      (λ u s1 formed1.
        if-keeps Kept (is_whiteout upper.real_path) _ _ (λ e. white_out-Kept upper s1 formed1)
          (λ e. graft-Kept upper s1 c formed1))

-- `Merge` of two trees whose nodes stand under their own canonical paths, shorter ones above longer ones, ends, and
-- the lower tree is of this kind still, whether it fails or not.
pub merge-Kept : (t : Tree FileNode) (s : Files) → IsFormed t → IsFormed s.tree → Kept (merge t s)
unfolding merge merge_fuel
merge-Kept t s upper formed =
    walk_all-Terminates t upper.keyed upper.growing (λ (s' : Files). IsFormed s'.tree) HasCanonical
      upper.canonical (merge_visitor t) merge_conditions (λ n s' c. merge_visitor-Kept t n s' c) s
      formed

merge_all-Kept :
    (ts : List (Tree FileNode)) (s : Files)
    → All IsFormed ts
    → IsFormed s.tree
    → Kept (merge_all ts s)
unfolding merge_all
merge_all-Kept [] s hs formed = (tt, formed)
merge_all-Kept (t ∷ ts) s hs formed =
    after-Kept (merge t s) _ (merge-Kept t s hs.0 formed) (λ u s'. merge_all-Kept ts s' hs.1)

root-Growing : Growing new_file_tree
unfolding new_file_tree new_dir Tree.add_root Tree.add_node Tree.has_node get put child_map
root-Growing k = elim (Bool-cases (str_eq root k)) [ inl e ↦ rw e tt | inr e ↦ rw e tt ]

pub new_file_tree-IsFormed : IsFormed new_file_tree
unfolding new_file_tree new_dir Tree.add_root Tree.add_node Tree.has_node get put child_map join
new_file_tree-IsFormed = record {
  keyed = new_file_tree-IsKeyed;
  growing = root-Growing;
  canonical = (record { elements = []; plain = tt; spells = refl }, tt);
}

abbrev pub FormedResult : Result (Tree FileNode) → Type 0
FormedResult (ok t) = IsFormed t
FormedResult (err e) = e ≢ out_of_fuel

-- `Squash` of trees whose nodes stand under their own canonical paths, shorter ones above longer ones, ends: its
-- result is such a tree, or an error other than that of the fuel.
pub squash-FormedResult :
    (ts : List (Tree FileNode)) (next_id : ℕ) → All IsFormed ts → FormedResult (squash ts next_id).0
unfolding squash
squash-FormedResult [] next_id h = new_file_tree-IsFormed
squash-FormedResult (low ∷ ts) next_id h =
    go (merge_all ts _) (merge_all-Kept ts _ h.1 (subst IsFormed (sym (copy_file_tree-eq low)) h.0))
  where
    go : (x : Result (Unit {0}) × Files) → Kept x → FormedResult (x.0 >>= λ _. ok x.1.tree)
    go (ok u, s) h = h.1
    go (err e, s) h = h.0
