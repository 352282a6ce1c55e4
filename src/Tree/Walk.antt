-- ===== src/Tree/Walk.antt =====
-- pkg/tree/depth_first_walker.go: a depth-first walk with a stack and a set of visited nodes. The
-- visitor acts on a state `S` of its own.
use stereoscope.Errors.{Result, ok, err, after, out_of_fuel}
use stereoscope.File.Sets
use stereoscope.File.Sets.{IdSet}
use stereoscope.Go.Sort.{sort}
use stereoscope.Go.Strings.{str_lt}
use stereoscope.Tree.{NodeId, Node, Tree, child_nodes, roots}
use stereoscope.Prelude.{
  ℕ, zero, suc, List, [], ◌∷◌, ◌++◌, Option, none, some, Bool, true, false, not, ◌&&◌,
  byte_string_eq, if◌then◌else◌,
}

-- `WalkConditions`; a condition that is not given is `none`.
pub record WalkConditions (N : Type 0) : Type 0 where
  pub should_terminate : Option (N → Bool)
  pub should_visit : Option (N → Bool)
  pub should_continue_branch : Option (N → Bool)

abbrev pub no_conditions : {N : Type 0} → WalkConditions N
no_conditions = record {
  should_terminate = none;
  should_visit = none;
  should_continue_branch = none;
}

-- What a condition says of a node, or its default.
abbrev pub holds : {N : Type 0} → Bool → Option (N → Bool) → N → Bool
holds default none n = default
holds default (some p) n = p n

-- `DepthFirstWalker` without its tree and its visitor: the stack, its top first, the visited
-- identities, and the visitor's state.
pub record Walker (N S : Type 0) : Type 0 where
  pub stack : List N
  pub visited : IdSet NodeId
  pub state : S

abbrev pub new_walker : {N S : Type 0} → S → Walker N S
new_walker s = record { stack = []; visited = []; state = s }

abbrev pub Visitor : Type 0 → Type 0 → Type 0
Visitor N S = N → S → Result (Unit {0}) × S

module _ {N : Type 0} ⦃node_of : Node N⦄ where
  by_id : N → N → Bool
  by_id a b = str_lt (node_of.id a) (node_of.id b)

  -- The children in the order in which the stack gives them back: sorted in reverse and pushed one
  -- by one, the smallest identity comes to lie on top.
  unfoldable pub sorted_children : Tree N → N → List N
  unfolding by_id
  sorted_children t n = sort by_id (child_nodes n t)

module _ {N S : Type 0} ⦃node_of : Node N⦄ where
  -- A node that was visited without an error is marked.
  unfoldable pub mark : NodeId → Walker N S → Result (Unit {0}) × S → Result (Unit {0}) × Walker N S
  mark id w (ok u, s) = (ok u, record w { state = s; visited = Sets.add (id ∷ []) w.visited })
  mark id w (err e, s) = (err e, record w { state = s })

  -- The part of the loop's body that visits.
  unfoldable pub visit :
      Visitor N S → WalkConditions N → N → Walker N S → Result (Unit {0}) × Walker N S
  visit visitor cond n w =
      if not (Sets.has_member w.visited (node_of.id n)) && holds true cond.should_visit n
      then mark (node_of.id n) w (visitor n w.state)
      else (ok tt, w)

  -- The loop of `Walk`: the node at which it stopped, if it stopped before the stack was empty.
  unfoldable pub walk_loop :
      Tree N
      → Visitor N S
      → WalkConditions N
      → ℕ
      → List N
      → Walker N S
      → Result (Option N) × Walker N S
  walk_loop t visitor cond fuel [] w = (ok none, record w { stack = [] })
  walk_loop t visitor cond zero (n ∷ stack) w = (err out_of_fuel, record w { stack = n ∷ stack })
  walk_loop t visitor cond (suc fuel) (n ∷ stack) w =
      let w0 = record w { stack = stack } in
      if holds false cond.should_terminate n
      then (ok (some n), w0)
      else after (visit visitor cond n w0) (λ u w1.
        if holds true cond.should_continue_branch n
        then walk_loop t visitor cond fuel (sorted_children t n ++ stack) w1
        else walk_loop t visitor cond fuel stack w1)

  -- `Walk`: the node is pushed on what an earlier walk has left on the stack.
  unfoldable pub walk :
      Tree N → Visitor N S → WalkConditions N → ℕ → N → Walker N S → Result (Option N) × Walker N S
  walk t visitor cond fuel from w = walk_loop t visitor cond fuel (from ∷ w.stack) w

  unfoldable pub walk_from :
      Tree N
      → Visitor N S
      → WalkConditions N
      → ℕ
      → List N
      → Walker N S
      → Result (Unit {0}) × Walker N S
  walk_from t visitor cond fuel [] w = (ok tt, w)
  walk_from t visitor cond fuel (n ∷ ns) w =
      after (walk t visitor cond fuel n w) (λ stopped. walk_from t visitor cond fuel ns)

  -- `WalkAll`
  unfoldable pub walk_all :
      Tree N → Visitor N S → WalkConditions N → ℕ → Walker N S → Result (Unit {0}) × Walker N S
  walk_all t visitor cond fuel w = walk_from t visitor cond fuel (roots t) w
