-- ===== src/Tree/Copies.antt =====
-- `Copy` of pkg/tree/tree.go, for nodes that are copied field by field.
use stereoscope.Go.Maps.{GoMap}
use stereoscope.Tree.{NodeId, Node, Tree, copy_tree, copy_entries, copy_parents, copy_children}
use stereoscope.Prelude.{[], ◌∷◌, Option, none, some, ◌≡◌, refl}

module _ {N : Type 0} ⦃node_of : Node N⦄ (same : (n : N) → node_of.copy n ≡ n) where
  copy_entries-eq : (m : GoMap NodeId N) → copy_entries m ≡ m
  unfolding copy_entries
  copy_entries-eq [] = refl
  copy_entries-eq ((k, v) ∷ m) = λ i. (k, same v i) ∷ copy_entries-eq m i

  copy_parents-eq : (m : GoMap NodeId (Option N)) → copy_parents m ≡ m
  unfolding copy_parents
  copy_parents-eq [] = refl
  copy_parents-eq ((k, none) ∷ m) = λ i. (k, none) ∷ copy_parents-eq m i
  copy_parents-eq ((k, some v) ∷ m) = λ i. (k, some (same v i)) ∷ copy_parents-eq m i

  copy_children-eq : (m : GoMap NodeId (GoMap NodeId N)) → copy_children m ≡ m
  unfolding copy_children
  copy_children-eq [] = refl
  copy_children-eq ((k, v) ∷ m) = λ i. (k, copy_entries-eq v i) ∷ copy_children-eq m i

  pub copy_tree-eq : (t : Tree N) → copy_tree t ≡ t
  unfolding copy_tree
  copy_tree-eq t = λ i. record {
    nodes = copy_entries-eq t.nodes i;
    children = copy_children-eq t.children i;
    parent = copy_parents-eq t.parent i;
  }
