-- ===== src/Tree/Invariant.antt =====
-- Invariants of the visitor of pkg/tree/depth_first_walker.go over a whole walk.
use stereoscope.Errors.{Result, ok, err, after-keeps}
use stereoscope.Tree.{NodeId, Node, Tree, roots}
use stereoscope.Tree.Walk.{
  WalkConditions, Walker, Visitor, holds, mark, visit, walk_loop, walk, walk_from, walk_all,
  sorted_children,
}
use stereoscope.Prelude.{
  ℕ, zero, suc, List, [], ◌∷◌, ◌++◌, true, false, ◌≡◌, if-keeps, ◌&&◌, not, arith, byte_string_eq,
}
use stereoscope.File.Sets

module _ {N S : Type 0} ⦃node_of : Node N⦄ (P : S → Type 0) (t : Tree N) (visitor : Visitor N S)
    (cond : WalkConditions N)
    (keeps : (n : N) (s : S)
      → holds true cond.should_visit n ≡ true
      → P s
      → P (visitor n s).1) where
  abbrev Holds : Walker N S → Type 0
  Holds w = P w.state

  abbrev HoldsAfter : {A : Type 0} → Result A × Walker N S → Type 0
  HoldsAfter x = P x.1.state

  mark_keeps :
      (id : NodeId) (w : Walker N S) (x : Result (Unit {0}) × S) → P x.1 → HoldsAfter (mark id w x)
  unfolding mark
  mark_keeps id w (ok u, s) h = h
  mark_keeps id w (err e, s) h = h

  visit_keeps : (n : N) (w : Walker N S) → Holds w → HoldsAfter (visit visitor cond n w)
  unfolding visit
  visit_keeps n w h =
      if-keeps HoldsAfter
        (not (Sets.has_member w.visited (node_of.id n)) && holds true cond.should_visit n) _ _
        (λ e. mark_keeps (node_of.id n) w (visitor n w.state) (keeps n w.state (ground arith) h))
        (λ e. h)

  walk_loop_keeps :
      (fuel : ℕ) (stack : List N) (w : Walker N S)
      → Holds w
      → HoldsAfter (walk_loop t visitor cond fuel stack w)
  unfolding walk_loop
  walk_loop_keeps zero [] w h = h
  walk_loop_keeps (suc fuel) [] w h = h
  walk_loop_keeps zero (n ∷ stack) w h = h
  walk_loop_keeps (suc fuel) (n ∷ stack) w h =
      if-keeps HoldsAfter (holds false cond.should_terminate n) _ _ (λ e. h)
        (λ e.
          after-keeps Holds (visit visitor cond n (record w { stack = stack })) _
            (visit_keeps n (record w { stack = stack }) h)
            (λ u w1 h1.
              if-keeps HoldsAfter (holds true cond.should_continue_branch n) _ _
                (λ e'. walk_loop_keeps fuel (sorted_children t n ++ stack) w1 h1)
                (λ e'. walk_loop_keeps fuel stack w1 h1)))

  walk_from_keeps :
      (fuel : ℕ) (ns : List N) (w : Walker N S)
      → Holds w
      → HoldsAfter (walk_from t visitor cond fuel ns w)
  unfolding walk_from walk
  walk_from_keeps fuel [] w h = h
  walk_from_keeps fuel (n ∷ ns) w h =
      after-keeps Holds (walk_loop t visitor cond fuel (n ∷ w.stack) w) _
        (walk_loop_keeps fuel (n ∷ w.stack) w h) (λ stopped w'. walk_from_keeps fuel ns w')

  -- What the visitor keeps of its state at every node that the walk may visit, the whole walk keeps,
  -- whether it fails, stops or ends.
  pub walk_all_keeps :
      (fuel : ℕ) (w : Walker N S) → P w.state → P (walk_all t visitor cond fuel w).1.state
  unfolding walk_all
  walk_all_keeps fuel w h = walk_from_keeps fuel (roots t) w h
