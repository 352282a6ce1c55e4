-- ===== src/FileTree/Formed.antt =====
-- File trees of pkg/filetree with every node under its own canonical path, and shorter paths above longer ones: what
-- the writes of filetree.go keep of this, and that each of them ends.
use mathlib.Core.Path.{subst}
use stereoscope.Errors.{
  Result, ok, err, Act, after, Terminates, bind-eq-ok, bind-Terminates, out_of_fuel,
}
use stereoscope.File.Ancestors.{constituent_paths-IsCanonical, parent_path-shorter}
use stereoscope.File.Kinds.{FileType, type_eq}
use stereoscope.File.Paths.{FilePath, normalize, parent_path}
use stereoscope.File.Paths.Canonical.{IsCanonical, normalize_of_IsCanonical, All-reverse}
use stereoscope.File.Refs.{Reference, new_file_reference}
use stereoscope.FileTree.Edit.{
  Files, keep_tree, set_file_node, add_dirs, add_parent_paths, ensure_reference, add_new, add_kind,
  missing_paths,
}
use stereoscope.FileTree.Keyed.{nodes-put_child, put-IsKeyed, IsKeyed, set_file_node-IsKeyed}
use stereoscope.FileTree.Nodes.{FileNode, file_node_as_node, file_node, has_file_node, new_dir}
use stereoscope.FileTree.Resolve.{plain}
use stereoscope.Go.Maps.{put, get, values}
use stereoscope.Tree
use stereoscope.Tree.{Tree, NodeId, child_map}
use stereoscope.Tree.Growing.{Growing, add_child-Growing, values-put, value_of}
use stereoscope.Prelude.{
  ℕ, ◌<◌, List, [], ◌∷◌, Option, none, some, byte_string_eq, str_eq, str_eq_iff, length, ◌≡◌, ◌≢◌,
  refl, sym, ◌∙◌, arith, All, if-keeps, Option-keeps, Bool-cases, inl, inr,
}

-- The path of a node is canonical.
abbrev pub HasCanonical : FileNode → Type 0
HasCanonical n = IsCanonical n.real_path

pub record IsFormed (t : Tree FileNode) : Type 0 where
  pub keyed : IsKeyed t
  pub growing : Growing t
  pub canonical : All HasCanonical (values t.nodes)

-- An action that has ended, with a tree of this kind, whether or not it has failed.
abbrev pub Kept : {A : Type 0} → Result A × Files → Type 0
Kept x = Terminates x.0 × IsFormed x.1.tree

pub after-Kept :
    {A B : Type 0} (x : Result A × Files) (f : A → Act Files B)
    → Kept x
    → ((a : A) (s : Files) → IsFormed s.tree → Kept (f a s))
    → Kept (after x f)
after-Kept (ok a, s) f h next = next a s h.1
after-Kept (err e, s) f h next = h

module _ (fn : FileNode) (t : Tree FileNode) (formed : IsFormed t) (c : HasCanonical fn) where
  replaced :
      (old : FileNode)
      → Tree.node fn.real_path t ≡ some old
      → Tree.replace old fn t ≡ ok (record t { nodes = put fn.real_path fn t.nodes })
  unfolding Tree.replace Tree.has_node Tree.node
  replaced old there =
      ground (arith, formed.keyed fn.real_path old there, str_eq_iff old.real_path fn.real_path)

  -- The tree has longer paths below shorter ones, and canonical ones alone.
  abbrev Sound : Result (Tree FileNode) → Type 0
  Sound (ok u) = Growing u × All HasCanonical (values u.nodes)
  Sound (err e) = e ≢ out_of_fuel

  nodes-ensure_node :
      (n : FileNode) (u u' : Tree FileNode)
      → Tree.ensure_node n u ≡ ok u'
      → u'.nodes ≡ put n.real_path n u.nodes
  unfolding Tree.ensure_node Tree.add_node
  nodes-ensure_node n u u' h = ground arith

  values-add_child :
      (from to : FileNode) (u' : Tree FileNode)
      → Tree.add_child from to t ≡ ok u'
      → HasCanonical from
      → HasCanonical to
      → All HasCanonical (values u'.nodes)
  unfolding Tree.add_child
  values-add_child from to u' h cf ct = elim (Bool-cases (str_eq from.real_path to.real_path)) [
    | inl same ↦ cc (rw same at h)
    | inr other ↦
        let (t1, e1, h1) = bind-eq-ok (Tree.ensure_node from t) _ (rw other at h) in
        let (t2, e2, h2) = bind-eq-ok (Tree.ensure_node to t1) _ h1 in
        let (t3, e3, h3) = bind-eq-ok (Tree.put_child from.real_path to.real_path to t2) _ h2 in
        let all1 =
          subst (λ m. All HasCanonical (values m)) (sym (nodes-ensure_node from t t1 e1))
            (values-put HasCanonical from.real_path from t.nodes cf formed.canonical) in
        let all2 =
          subst (λ m. All HasCanonical (values m)) (sym (nodes-ensure_node to t1 t2 e2))
            (values-put HasCanonical to.real_path to t1.nodes ct all1) in
        let same : u'.nodes ≡ t2.nodes =
          ground (arith, nodes-put_child from.real_path to.real_path to t2 t3 e3, h3) in
        subst (λ m. All HasCanonical (values m)) (sym same) all2
  ]

  ensure_node-Terminates : (n : FileNode) (u : Tree FileNode) → Terminates (Tree.ensure_node n u)
  unfolding Tree.ensure_node Tree.add_node
  ensure_node-Terminates n u =
      if-keeps Terminates (Tree.has_node n.real_path u) _ _ (λ e. tt)
        (λ e. if-keeps Terminates (Tree.has_node n.real_path u) _ _ (λ e' x. cc) (λ e'. tt))

  put_child-Terminates :
      (p k : NodeId) (n : FileNode) (u : Tree FileNode) → Terminates (Tree.put_child p k n u)
  unfolding Tree.put_child
  put_child-Terminates p k n u =
      Option-keeps Terminates (get p u.children) _ _ (λ e x. cc) (λ m e. tt)

  add_child-Terminates : (from to : FileNode) → Terminates (Tree.add_child from to t)
  unfolding Tree.add_child
  add_child-Terminates from to =
      if-keeps Terminates (str_eq from.real_path to.real_path) _ _ (λ e x. cc)
        (λ e. bind-Terminates (Tree.ensure_node from t) _ (ensure_node-Terminates from t) (λ t1.
          bind-Terminates (Tree.ensure_node to t1) _ (ensure_node-Terminates to t1) (λ t2.
            bind-Terminates (Tree.put_child from.real_path to.real_path to t2) _
              (put_child-Terminates from.real_path to.real_path to t2) (λ t3. tt))))

  added :
      (parent : FileNode) (p : FilePath)
      → parent_path fn.real_path ≡ some p
      → file_node (plain t p) ≡ some parent
      → Sound (Tree.add_child parent fn t)
  unfolding plain
  added parent p at found = go (Tree.add_child parent fn t) refl (add_child-Terminates parent fn)
    where
      go : (x : Result (Tree FileNode)) → Tree.add_child parent fn t ≡ x → Terminates x → Sound x
      go (err e) same h = h
      go (ok u) same h =
          let (plain_p, shorter) = parent_path-shorter fn.real_path p c at in
          let own : p ≡ parent.real_path =
            sym (formed.keyed (normalize p) parent found ∙ normalize_of_IsCanonical p plain_p) in
          (
            add_child-Growing parent fn t u same
                (subst (λ q. length q < length fn.real_path) own shorter) formed.growing,
            values-add_child parent fn u same (subst IsCanonical own plain_p) c,
          )

  set_file_node-Sound : Sound (set_file_node fn t)
  unfolding set_file_node child_map
  set_file_node-Sound =
      Option-keeps Sound (Tree.node fn.real_path t) _ _
        (λ new.
          Option-keeps Sound (parent_path fn.real_path) _ _ (λ nothing e. cc)
            (λ p at.
              Option-keeps Sound (file_node (plain t p)) _ _ (λ nothing e. cc)
                (λ parent found. added parent p at found)))
        (λ old there.
          subst Sound (sym (replaced old there))
            (formed.growing, values-put HasCanonical fn.real_path fn t.nodes c formed.canonical))

-- Setting a node with a canonical path ends, and keeps such a tree.
pub set-Kept :
    (fn : FileNode) (s : Files) (next_id : ℕ)
    → IsFormed s.tree
    → HasCanonical fn
    → Kept (keep_tree (record s { next_id = next_id }) (set_file_node fn s.tree))
set-Kept fn s next_id formed c =
    go (set_file_node fn s.tree) refl (set_file_node-Sound fn s.tree formed c)
  where
    go :
        (x : Result (Tree FileNode))
        → set_file_node fn s.tree ≡ x
        → Sound fn s.tree formed c x
        → Kept (keep_tree (record s { next_id = next_id }) x)
    go (err e) same h = (h, formed)
    go (ok t) same h = (
      tt,
      record {
        keyed = set_file_node-IsKeyed fn s.tree t formed.keyed same;
        growing = h.0;
        canonical = h.1;
      },
    )

add_dirs-Kept :
    (ds : List FilePath) (s : Files) → All IsCanonical ds → IsFormed s.tree → Kept (add_dirs ds s)
unfolding add_dirs
add_dirs-Kept [] s c formed = (tt, formed)
add_dirs-Kept (d ∷ ds) s c formed =
    after-Kept (keep_tree s (set_file_node (new_dir d none) s.tree)) _
      (set-Kept (new_dir d none) s s.next_id formed (unfold new_dir in c.0))
      (λ u s'. add_dirs-Kept ds s' c.1)

missing_paths-IsCanonical :
    (t : Tree FileNode) (ds : List FilePath)
    → All IsCanonical ds
    → All IsCanonical (missing_paths t ds)
unfolding missing_paths
missing_paths-IsCanonical t [] c = tt
missing_paths-IsCanonical t (d ∷ ds) c =
    if-keeps (All IsCanonical) (has_file_node (some (plain t d))) _ _ (λ e. tt)
      (λ e. (c.0, missing_paths-IsCanonical t ds c.1))

pub add_parent_paths-Kept :
    (p : FilePath) (s : Files) → IsCanonical p → IsFormed s.tree → Kept (add_parent_paths p s)
unfolding add_parent_paths
add_parent_paths-Kept p s c formed =
    Option-keeps Kept (parent_path p) _ _ (λ e. ((λ x. cc), formed))
      (λ parent e.
        if-keeps Kept (has_file_node (some (plain s.tree parent))) _ _ (λ e'. (tt, formed))
          (λ e'.
            add_dirs-Kept _ s
              (All-reverse _ _ (
                missing_paths-IsCanonical s.tree _
                  (All-reverse IsCanonical _ (constituent_paths-IsCanonical p c))))
              formed))

ensure_reference-Kept :
    (p : FilePath) (n : FileNode) (s : Files)
    → HasCanonical n
    → IsFormed s.tree
    → Kept (ensure_reference p n s)
unfolding ensure_reference new_file_reference child_map
ensure_reference-Kept p n s c formed =
    Option-keeps Kept n.reference _ _
      (λ e. (
        tt,
        record {
          keyed = put-IsKeyed _ s.tree formed.keyed;
          growing = formed.growing;
          canonical = values-put HasCanonical n.real_path _ s.tree.nodes c formed.canonical;
        },
      ))
      (λ r e. (tt, formed))

-- The four additions at a canonical path end, and keep such a tree.
pub add_kind-Kept :
    (kind : FileType) (p : FilePath) (make : Option Reference → FileNode) (s : Files)
    → ((r : Option Reference) → HasCanonical (make r))
    → IsCanonical p
    → IsFormed s.tree
    → Kept (add_kind kind p make s)
unfolding add_kind add_new new_file_reference
add_kind-Kept kind p make s cs c formed =
    Option-keeps Kept (file_node (plain s.tree p)) _ _
      (λ e.
        after-Kept (add_parent_paths p s) _ (add_parent_paths-Kept p s c formed) (λ u s' formed'.
          after-Kept (keep_tree _ (set_file_node _ s'.tree)) _ (set-Kept _ s' _ formed' (cs _))
            (λ u' s2 formed2. (tt, formed2))))
      (λ n e.
        if-keeps Kept (type_eq n.file_type kind) _ _
          (λ e'. ensure_reference-Kept p n s (at_plain n e) formed) (λ e'. ((λ x. cc), formed)))
  where
    at_plain : (n : FileNode) → file_node (plain s.tree p) ≡ some n → HasCanonical n
    at_plain n e =
        value_of HasCanonical (normalize p) n s.tree.nodes formed.canonical
          (unfold plain Tree.node in e)
