-- ===== src/Tree/Shrinks.antt =====
-- `RemoveNode` of pkg/tree/tree.go: the nodes before it and after it.
use mathlib.Core.Path.{subst, ap}
use stereoscope.Errors.{Result, ok, after-keeps, after-eq-ok}
use stereoscope.Go.Maps.{GoMap, delete, has, get-delete}
use stereoscope.Tree.{NodeId, Node, Tree, node, has_node, child_map, delete_child}
use stereoscope.Tree.Remove.{detach, remove_each, remove_node}
use stereoscope.Prelude.{
  ℕ, zero, suc, List, [], ◌∷◌, ◌++◌, none, some, ◌≡◌, refl, byte_string_eq, str_eq, str_eq_iff,
  arith, if◌then◌else◌, Bool-cases, inl, inr,
}

-- What `t'` has, `t` has too.
abbrev pub Shrinks : {N : Type 0} → Tree N → Tree N → Type 0
Shrinks {N} t t' = (q : NodeId) (n : N) → node q t' ≡ some n → node q t ≡ some n

module _ {N : Type 0} ⦃node_of : Node N⦄ where
  nodes-delete_child : (p c : NodeId) (t : Tree N) → (delete_child p c t).nodes ≡ t.nodes
  unfolding delete_child
  nodes-delete_child p c t = ground arith

  pub nodes-detach : (id : NodeId) (t : Tree N) → (detach id t).nodes ≡ delete id t.nodes
  unfolding detach delete_child
  nodes-detach id t = ground arith

  pub node-detach :
      (id q : NodeId) (t : Tree N) → node q (detach id t) ≡ (if str_eq id q then none else node q t)
  unfolding node
  node-detach id q t = rw nodes-detach (get-delete id q t.nodes)

  pub detach-Shrinks : (id : NodeId) (t : Tree N) → Shrinks t (detach id t)
  detach-Shrinks id t q n h = ground (arith, node-detach id q t)

  remove_each-Shrinks :
      (rm : N → Tree N → Result (List N) × Tree N)
      → ((n : N) (t : Tree N) → Shrinks t (rm n t).1)
      → (t0 : Tree N) (id : NodeId) (l : GoMap NodeId N) (removed : List N) (t : Tree N)
      → Shrinks t0 t
      → Shrinks t0 (remove_each rm id l removed t).1
  unfolding remove_each
  remove_each-Shrinks rm each t0 id [] removed t h = h
  remove_each-Shrinks rm each t0 id ((c, child) ∷ rest) removed t h =
      elim (Bool-cases (has c (child_map id t))) [
        | inl there ↦ rw there (
            after-keeps (Shrinks t0) (rm child t) (λ sub. remove_each rm id rest (removed ++ sub))
              (λ q n at. h q n (each child t q n at))
              (λ sub t'. remove_each-Shrinks rm each t0 id rest (removed ++ sub) t'))
        | inr gone ↦ rw gone (remove_each-Shrinks rm each t0 id rest removed t h)
      ]

  -- After `RemoveNode` the tree holds no node that it did not hold before, and every node that is left is
  -- unchanged, on every branch.
  pub remove_node-Shrinks : (f : ℕ) (n : N) (t : Tree N) → Shrinks t (remove_node f n t).1
  unfolding remove_node
  remove_node-Shrinks zero n t = λ q m h. h
  remove_node-Shrinks (suc f) n t = elim (Bool-cases (has_node (node_of.id n) t)) [
    | inl there ↦ rw there (
        after-keeps (Shrinks t)
          (remove_each (remove_node f) (node_of.id n) (child_map (node_of.id n) t) [] t) _
          (remove_each-Shrinks (remove_node f) (remove_node-Shrinks f) t (node_of.id n)
            (child_map (node_of.id n) t) [] t (λ q m h. h))
          (λ removed t' h q m at. h q m (detach-Shrinks (node_of.id n) t' q m at)))
    | inr gone ↦ rw gone (λ q m h. h)
  ]

  -- If `RemoveNode` succeeds, the tree has no node under the identity of the node that it was called for.
  pub node-remove_node :
      (f : ℕ) (n : N) (t t' : Tree N) {removed : List N}
      → remove_node f n t ≡ (ok removed, t')
      → node (node_of.id n) t' ≡ none
  unfolding remove_node
  node-remove_node zero n t t' h = cc
  node-remove_node (suc f) n t t' {removed} h = elim (Bool-cases (has_node (node_of.id n) t)) [
    | inl there ↦
        let x = remove_each (remove_node f) (node_of.id n) (child_map (node_of.id n) t) [] t in
        let (some_removed, e, same) = after-eq-ok x _ (rw there at h) in
        subst (λ u. node (node_of.id n) u ≡ none) (ap (λ (y : Result (List N) × Tree N). y.1) same)
          (rw (
            node-detach (node_of.id n) (node_of.id n) x.1,
            (str_eq_iff (node_of.id n) (node_of.id n)).1 refl,
          ))
    | inr gone ↦ ground arith
  ]
