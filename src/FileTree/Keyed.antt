-- ===== src/FileTree/Keyed.antt =====
-- The paths of nodes against the identities that they are stored under, for the writes of
-- pkg/filetree/filetree.go.
use mathlib.Core.List.{reverse}
use mathlib.Core.Path.{subst}
use stereoscope.File.Kinds.{FileType, type_eq}
use stereoscope.Errors.{Leaves, Result, ok, err, after-keeps, bind-eq-ok}
use stereoscope.File.Paths.{FilePath, parent_path, normalize, constituent_paths}
use stereoscope.File.Refs.{Reference, new_file_reference}
use stereoscope.FileTree.Edit.{
  Files, keep_tree, set_file_node, add_dirs, add_parent_paths, ensure_reference, add_new, add_kind,
  missing_paths, remove_path, remove_child_paths,
}
use stereoscope.FileTree.Nodes.{FileNode, file_node_as_node, file_node, has_file_node, new_dir}
use stereoscope.FileTree.Removes.{Within, remove_path-Within, remove_child_paths-Within}
use stereoscope.FileTree.Resolve.{plain}
use stereoscope.Go.Maps.{put, get-put}
use stereoscope.Tree
use stereoscope.Tree.{Tree, NodeId}
use stereoscope.Prelude.{
  List, [], ◌∷◌, Option, none, some, true, ◌≡◌, refl, sym, byte_string_eq, str_eq, str_eq_iff,
  arith, if◌then◌else◌, Bool-cases, Option-cases, inl, inr, ◌⊎◌, if-keeps, Option-keeps,
}

abbrev pub IsKeyed : Tree FileNode → Type 0
IsKeyed t = (k : NodeId) (n : FileNode) → Tree.node k t ≡ some n → n.real_path ≡ k

-- A node is in the tree under its path.
abbrev pub HasNode : Tree FileNode → FilePath → FileNode → Type 0
HasNode t p n = Tree.node p t ≡ some n

pub nodes-put_child :
    (p c : NodeId) (n : FileNode) (t t' : Tree FileNode)
    → Tree.put_child p c n t ≡ ok t'
    → t'.nodes ≡ t.nodes
unfolding Tree.put_child
nodes-put_child p c n t t' h = ground arith

node-ensure_node :
    (n : FileNode) (t t' : Tree FileNode) (q : NodeId)
    → Tree.ensure_node n t ≡ ok t'
    → Tree.node q t' ≡ (if str_eq n.real_path q then some n else Tree.node q t)
unfolding Tree.ensure_node Tree.add_node Tree.node
node-ensure_node n t t' q h = ground (arith, get-put n.real_path q n t.nodes)

node-add_child :
    (from to : FileNode) (t t' : Tree FileNode) (q : NodeId)
    → Tree.add_child from to t ≡ ok t'
    → Tree.node q t' ≡ (
        if str_eq to.real_path q
        then some to
        else if str_eq from.real_path q
        then some from
        else Tree.node q t)
unfolding Tree.add_child
node-add_child from to t t' q h = elim (Bool-cases (str_eq from.real_path to.real_path)) [
  | inl same ↦ cc (rw same at h)
  | inr other ↦
      let (t1, e1, h1) = bind-eq-ok (Tree.ensure_node from t) _ (rw other at h) in
      let (t2, e2, h2) = bind-eq-ok (Tree.ensure_node to t1) _ h1 in
      let (t3, e3, h3) = bind-eq-ok (Tree.put_child from.real_path to.real_path to t2) _ h2 in
      let nodes = nodes-put_child from.real_path to.real_path to t2 t3 e3 in
      unfold Tree.node in
      ground (arith, nodes, node-ensure_node from t t1 q e1, node-ensure_node to t1 t2 q e2)
]

-- The parent that `setFileNode` finds for a new path.
abbrev pub ParentAt : FileNode → Tree FileNode → FileNode → Type 0
ParentAt fn t parent =
    (p : FilePath) × (parent_path fn.real_path ≡ some p) × (file_node (plain t p) ≡ some parent)

-- The two ways in which `setFileNode` succeeds.
pub set_file_node_cases :
    (fn : FileNode) (t t' : Tree FileNode)
    → set_file_node fn t ≡ ok t'
    → ((old : FileNode) × (Tree.node fn.real_path t ≡ some old) × (Tree.replace old fn t ≡ ok t'))
      ⊎ ((Tree.node fn.real_path t ≡ none)
          × ((parent : FileNode) × (ParentAt fn t parent) × (Tree.add_child parent fn t ≡ ok t')))
unfolding set_file_node
set_file_node_cases fn t t' h = elim (Option-cases (Tree.node fn.real_path t)) [
  | inr (old, there) ↦ inl (old, there, ground arith)
  | inl new ↦ elim (Option-cases (parent_path fn.real_path)) [
    | inl nothing ↦ ground arith
    | inr (p, at) ↦ elim (Option-cases (file_node (plain t p))) [
      | inl nothing ↦ ground arith
      | inr (parent, found) ↦ inr (new, (parent, (p, at, found), ground arith))
    ]
  ]
]

-- The parent is in the tree under its own path.
pub parent_in_tree :
    (fn : FileNode) (t : Tree FileNode) (parent : FileNode)
    → IsKeyed t
    → ParentAt fn t parent
    → HasNode t parent.real_path parent
unfolding plain
parent_in_tree fn t parent keyed (p, at, found) =
    subst (λ k. Tree.node k t ≡ some parent) (sym (keyed (normalize p) parent found)) found

-- If `setFileNode` succeeds on a tree with every node under its own path, the tree then has the new node under
-- its path and else what it had.
pub node-set_file_node :
    (fn : FileNode) (t t' : Tree FileNode) (q : NodeId)
    → IsKeyed t
    → set_file_node fn t ≡ ok t'
    → Tree.node q t' ≡ (if str_eq fn.real_path q then some fn else Tree.node q t)
node-set_file_node fn t t' q keyed h = elim (set_file_node_cases fn t t' h) [
  | inl (old, there, replaced) ↦
      let own = keyed fn.real_path old there in
      let known : Tree.has_node old.real_path t ≡ true =
        unfold Tree.has_node Tree.node in ground arith in
      unfold Tree.replace Tree.node in
      ground
        (arith, str_eq_iff old.real_path fn.real_path, get-put fn.real_path q fn t.nodes, known)
  | inr (new, (parent, at, added)) ↦ ground (
    arith,
    node-add_child parent fn t t' q added,
    parent_in_tree fn t parent keyed at,
    str_eq_iff parent.real_path q,
  )
]

-- `setFileNode` keeps every node under its own path.
pub set_file_node-IsKeyed :
    (fn : FileNode) (t t' : Tree FileNode) → IsKeyed t → set_file_node fn t ≡ ok t' → IsKeyed t'
set_file_node-IsKeyed fn t t' keyed h k n at =
    ground (arith, node-set_file_node fn t t' k keyed h, keyed k n, str_eq_iff fn.real_path k)

pub keep_tree-IsKeyed :
    (s s0 : Files) (fn : FileNode)
    → IsKeyed s0.tree
    → s.tree ≡ s0.tree
    → IsKeyed (keep_tree s (set_file_node fn s0.tree)).1.tree
keep_tree-IsKeyed s s0 fn keyed same = go (set_file_node fn s0.tree) refl
  where
    go :
        (r : Result (Tree FileNode)) → set_file_node fn s0.tree ≡ r → IsKeyed (keep_tree s r).1.tree
    go (ok t) e = set_file_node-IsKeyed fn s0.tree t keyed e
    go (err x) e = rw same keyed

pub add_dirs-IsKeyed :
    (ds : List FilePath) (s : Files) → IsKeyed s.tree → IsKeyed (add_dirs ds s).1.tree
unfolding add_dirs
add_dirs-IsKeyed [] s h = h
add_dirs-IsKeyed (d ∷ ds) s h =
    after-keeps (λ s'. IsKeyed s'.tree) (keep_tree s (set_file_node (new_dir d none) s.tree)) _
      (keep_tree-IsKeyed s s (new_dir d none) h refl) (λ u s'. add_dirs-IsKeyed ds s')

-- The files whose nodes stand under their paths.
abbrev pub KeyedFiles : Files → Type 0
KeyedFiles s = IsKeyed s.tree

pub add_parent_paths-IsKeyed :
    (p : FilePath) (s : Files) → IsKeyed s.tree → IsKeyed (add_parent_paths p s).1.tree
unfolding add_parent_paths
add_parent_paths-IsKeyed p s h =
    Option-keeps (Leaves KeyedFiles) (parent_path p) _ _ (λ e. h)
      (λ parent e.
        if-keeps (Leaves KeyedFiles) (has_file_node (some (plain s.tree parent))) _ _ (λ e'. h)
          (λ e'.
            add_dirs-IsKeyed (reverse (missing_paths s.tree (reverse (constituent_paths p)))) s h))

pub put-IsKeyed :
    (n : FileNode) (t : Tree FileNode)
    → IsKeyed t
    → IsKeyed (record t { nodes = put n.real_path n t.nodes })
unfolding Tree.node
put-IsKeyed n t h k m at =
    ground (arith, get-put n.real_path k n t.nodes, h k m, str_eq_iff n.real_path k)

ensure_reference-IsKeyed :
    (p : FilePath) (n : FileNode) (s : Files)
    → IsKeyed s.tree
    → IsKeyed (ensure_reference p n s).1.tree
unfolding ensure_reference new_file_reference
ensure_reference-IsKeyed p n s h =
    Option-keeps (Leaves KeyedFiles) n.reference _ _ (λ e. put-IsKeyed _ s.tree h) (λ r e. h)

add_new-IsKeyed :
    (p : FilePath) (make : Option Reference → FileNode) (s : Files)
    → IsKeyed s.tree
    → IsKeyed (add_new p make s).1.tree
unfolding add_new new_file_reference
add_new-IsKeyed p make s h =
    after-keeps KeyedFiles (keep_tree _ (set_file_node _ s.tree)) _ (keep_tree-IsKeyed _ s _ h refl)
      (λ u s' h'. h')

-- The four additions keep every node under its own path, whether they fail or not.
pub add_kind-IsKeyed :
    (kind : FileType) (p : FilePath) (make : Option Reference → FileNode) (s : Files)
    → IsKeyed s.tree
    → IsKeyed (add_kind kind p make s).1.tree
unfolding add_kind
add_kind-IsKeyed kind p make s h =
    Option-keeps (Leaves KeyedFiles) (file_node (plain s.tree p)) _ _
      (λ e.
        after-keeps KeyedFiles (add_parent_paths p s) _ (add_parent_paths-IsKeyed p s h)
          (λ u s' h'. add_new-IsKeyed p make s' h'))
      (λ n e.
        if-keeps (Leaves KeyedFiles) (type_eq n.file_type kind) _ _
          (λ e'. ensure_reference-IsKeyed p n s h) (λ e'. h))

-- Files with no nodes but those of `s` have every node under its own path if `s` has.
Within-IsKeyed : (s s' : Files) → Within s s' → IsKeyed s.tree → IsKeyed s'.tree
Within-IsKeyed s s' within h k m at = h k m (within k m at)

-- `RemovePath` keeps every node under its own path, whether it fails or not.
pub remove_path-IsKeyed :
    (p : FilePath) (s : Files) → IsKeyed s.tree → IsKeyed (remove_path p s).1.tree
remove_path-IsKeyed p s h = Within-IsKeyed s (remove_path p s).1 (remove_path-Within p s) h

pub remove_child_paths-IsKeyed :
    (p : FilePath) (s : Files) → IsKeyed s.tree → IsKeyed (remove_child_paths p s).1.tree
remove_child_paths-IsKeyed p s h =
    Within-IsKeyed s (remove_child_paths p s).1 (remove_child_paths-Within s p s (λ q m at. at)) h
