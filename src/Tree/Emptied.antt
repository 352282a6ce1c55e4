-- ===== src/Tree/Emptied.antt =====
-- `RemoveNode` of pkg/tree/tree.go ends on trees whose children have longer identities than their parents.
use mathlib.Core.Path.{subst}
use stereoscope.Errors.{Result, ok, err, after, Terminates}
use stereoscope.Go.Maps.{GoMap, get, has, keys, values}
use stereoscope.Tree.{NodeId, Node, Tree, node, has_node, child_map}
use stereoscope.Tree.Remove.{detach, remove_each, remove_node}
use stereoscope.Tree.Shrinks.{Shrinks, detach-Shrinks, nodes-detach}
use stereoscope.Tree.Sizes.{longest}
use stereoscope.Prelude.{
  ℕ, zero, suc, ◌+◌, ◌≤◌, ◌<◌, List, [], ◌∷◌, ◌++◌, true, byte_string_eq, length, ◌≡◌, sym, arith,
  All, if-keeps, Option-cases, inl, inr,
}
use stereoscope.Tree.Growing.{Edge, Growing, detach-Growing, length-longest, values-delete}

module _ {N : Type 0} ⦃node_of : Node N⦄ where
  -- No identity is longer.
  abbrev pub Bounded : ℕ → Tree N → Type 0
  Bounded l t = (k : NodeId) → has_node k t ≡ true → length k ≤ l

  Shrinks-Bounded : (l : ℕ) (t t' : Tree N) → Shrinks t t' → Bounded l t → Bounded l t'
  unfolding has_node node
  Shrinks-Bounded l t t' shrinks bounded k h = elim (Option-cases (get k t'.nodes)) [
    | inl nothing ↦ cc (rw (nothing, has) at h)
    | inr (n, there) ↦ bounded k (ground (arith, shrinks k n there))
  ]

  pub longest-Bounded : (t : Tree N) → Bounded (longest (keys t.nodes)) t
  unfolding has_node
  longest-Bounded t k h = length-longest k t.nodes h

module _ {N : Type 0} ⦃node_of : Node N⦄ (Q : N → Type 0) where
  -- A removal that has ended, in a tree that is still of this kind.
  abbrev Removed : {A : Type 0} → ℕ → Result A × Tree N → Type 0
  Removed l x = Terminates x.0 × Growing x.1 × Bounded l x.1 × All Q (values x.1.nodes)

  after-Removed :
      {A B : Type 0} (l : ℕ) (x : Result A × Tree N) (f : A → Tree N → Result B × Tree N)
      → Removed l x
      → ((a : A) (t : Tree N)
          → Growing t
          → Bounded l t
          → All Q (values t.nodes)
          → Removed l (f a t))
      → Removed l (after x f)
  after-Removed l (ok a, t) f h next = next a t h.1 h.2 h.3
  after-Removed l (err e, t) f h next = h

  remove_each-Removed :
      (rm : N → Tree N → Result (List N) × Tree N) (id : NodeId) (l : ℕ)
      → ((n : N) (t : Tree N)
          → length id < length (node_of.id n)
          → Growing t
          → Bounded l t
          → All Q (values t.nodes)
          → Removed l (rm n t))
      → (cs : GoMap NodeId N) (removed : List N) (t : Tree N) → All (Edge id) cs
      → Growing t
      → Bounded l t
      → All Q (values t.nodes)
      → Removed l (remove_each rm id cs removed t)
  unfolding remove_each
  remove_each-Removed rm id l each [] removed t edges growing bounded held =
      (tt, growing, bounded, held)
  remove_each-Removed rm id l each ((c, child) ∷ cs) removed t edges growing bounded held =
      if-keeps (Removed l) (has c (child_map id t)) _ _
        (λ there.
          after-Removed l (rm child t) _
            (each child t (subst (λ k. length id < length k) (sym edges.0.0) edges.0.1) growing
              bounded held)
            (λ sub t' g b q. remove_each-Removed rm id l each cs (removed ++ sub) t' edges.1 g b q))
        (λ gone. remove_each-Removed rm id l each cs removed t edges.1 growing bounded held)

  remove_node-Removed :
      (f l : ℕ) (n : N) (t : Tree N)
      → 0 < f
      → suc l < f + length (node_of.id n)
      → Growing t
      → Bounded l t
      → All Q (values t.nodes)
      → Removed l (remove_node f n t)
  unfolding remove_node
  remove_node-Removed zero l n t some_fuel enough growing bounded held = absurd (omega arith)
  remove_node-Removed (suc f) l n t some_fuel enough growing bounded held =
      if-keeps (Removed l) (has_node (node_of.id n) t) _ _
        (λ there.
          let short = bounded (node_of.id n) there in
          after-Removed l
            (remove_each (remove_node f) (node_of.id n) (child_map (node_of.id n) t) [] t) _
            (remove_each-Removed (remove_node f) (node_of.id n) l
              (λ m t' longer. remove_node-Removed f l m t' (omega arith) (omega arith))
              (child_map (node_of.id n) t) [] t (growing (node_of.id n)) growing bounded held)
            (λ removed t' g b q. (
              tt,
              detach-Growing (node_of.id n) t' g,
              Shrinks-Bounded l t' (detach (node_of.id n) t') (detach-Shrinks (node_of.id n) t') b,
              subst (λ m. All Q (values m)) (sym (nodes-detach (node_of.id n) t'))
                  (values-delete Q (node_of.id n) t'.nodes q),
            )))
        (λ gone. ((λ e. cc), growing, bounded, held))

  -- In a tree in which each child has a longer identity than its parent, `RemoveNode` ends, on fuel that is more
  -- than the length of the longest identity, and leaves such a tree,
  -- with no new values.
  pub remove_node-Terminates :
      (n : N) (t : Tree N)
      → Growing t
      → All Q (values t.nodes)
      → Terminates (remove_node (suc (suc (longest (keys t.nodes)))) n t).0
        × Growing (remove_node (suc (suc (longest (keys t.nodes)))) n t).1
        × All Q (values (remove_node (suc (suc (longest (keys t.nodes)))) n t).1.nodes)
  remove_node-Terminates n t growing held =
      let r =
        remove_node-Removed (suc (suc (longest (keys t.nodes)))) (longest (keys t.nodes)) n t
          (omega arith) (omega arith) growing (longest-Bounded t) held in
      (r.0, r.1, r.3)
