-- ===== src/Tree/Remove.antt =====
-- `RemoveNode` of pkg/tree/tree.go: the node goes with everything below it. The recursion of the
-- source goes down the child maps without a bound; here it takes fuel.
use stereoscope.Errors.{Result, ok, err, after, cannot_remove, out_of_fuel}
use stereoscope.Go.Maps.{GoMap, delete, has}
use stereoscope.Tree.{NodeId, Node, Tree, has_node, node, child_map, parent_of, delete_child}
use stereoscope.Prelude.{
  ℕ, zero, suc, List, [], ◌∷◌, ◌++◌, none, some, byte_string_eq, if◌then◌else◌,
}

module _ {N : Type 0} ⦃node_of : Node N⦄ where
  -- What the function does after its loop.
  unfoldable pub detach : NodeId → Tree N → Tree N
  detach id t =
      let t1 = record t { children = delete id t.children } in
      let t2 : Tree N = elim (parent_of id t1) [
        | none ↦ t1
        | some p ↦ delete_child (node_of.id p) id t1
      ] in
      record t2 { parent = delete id t2.parent; nodes = delete id t2.nodes }

  removed_with : NodeId → Tree N → List N → List N
  removed_with id t removed = elim (node id t) [ none ↦ removed | some n ↦ removed ++ n ∷ [] ]

  -- The loop over the children. An entry that is gone when the range comes to it is passed over, as Go
  -- does for entries that are deleted before they are reached.
  unfoldable pub remove_each :
      (N → Tree N → Result (List N) × Tree N)
      → NodeId
      → GoMap NodeId N
      → List N
      → Tree N
      → Result (List N) × Tree N
  remove_each rm id [] removed t = (ok removed, t)
  remove_each rm id ((c, child) ∷ rest) removed t =
      let gone = remove_each rm id rest removed t in
      if has c (child_map id t)
      then after (rm child t) (λ sub. remove_each rm id rest (removed ++ sub))
      else gone

  -- `RemoveNode`: the removed nodes, each behind those below it.
  unfoldable pub remove_node : ℕ → N → Tree N → Result (List N) × Tree N
  unfolding removed_with
  remove_node zero n t = (err out_of_fuel, t)
  remove_node (suc f) n t =
      let id = node_of.id n in
      if has_node id t
      then after (remove_each (remove_node f) id (child_map id t) [] t)
          (λ removed t'. (ok (removed_with id t' removed), detach id t'))
      else (err (cannot_remove id), t)
