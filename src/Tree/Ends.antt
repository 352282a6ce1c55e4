-- ===== src/Tree/Ends.antt =====
-- A walk of pkg/tree/depth_first_walker.go ends, over a tree in which children have longer identities.
use mathlib.Core.Path.{subst}
use stereoscope.Errors.{Result, ok, err, after, Terminates}
use stereoscope.File.Sets
use stereoscope.Go.Maps.{GoMap, get, keys, values}
use stereoscope.Go.Sort.{All-sort}
use stereoscope.Tree.{
  NodeId, Node, Tree, node, has_node, child_map, child_nodes, found, roots, roots_among, parent_of,
}
use stereoscope.Tree.Growing.{Edge, Growing, value_of}
use stereoscope.Tree.Emptied.{longest-Bounded}
use stereoscope.Tree.Sizes.{longest, total, total-append, size_to, weight}
use stereoscope.Tree.Walk.{
  WalkConditions, Walker, Visitor, holds, mark, visit, walk_loop, walk, walk_from, walk_all,
  sorted_children, new_walker,
}
use stereoscope.Prelude.{
  ℕ, zero, suc, ◌+◌, ◌-◌, ◌≤◌, ◌<◌, List, [], ◌∷◌, ◌++◌, some, true, false, not, ◌&&◌,
  byte_string_eq, length, ◌≡◌, refl, sym, ap, arith, All, Option-keeps, All-append, if-keeps,
}

module _ {N : Type 0} ⦃node_of : Node N⦄ (t : Tree N)
    (keyed : (k : NodeId) (n : N) → node k t ≡ some n → node_of.id n ≡ k)
    (growing : Growing t) where
  -- A node of the tree.
  abbrev InTree : N → Type 0
  InTree n = node (node_of.id n) t ≡ some n

  -- Each child is in the tree, and has a longer identity.
  abbrev Below : N → N → Type 0
  Below n c = InTree c × (length (node_of.id n) < length (node_of.id c))

  found-Below :
      (n : N) (m : GoMap NodeId N)
      → All (Edge (node_of.id n)) m
      → All (Below n) (found t.nodes (keys m))
  unfolding found node
  found-Below n [] h = tt
  found-Below n ((k, c) ∷ m) h =
      Option-keeps (All (Below n)) (get k t.nodes) _ _ (λ e. found-Below n m h.1)
        (λ d e.
          let own = keyed k d e in
          (
            (
              subst (λ j. get j t.nodes ≡ some d) (sym own) e,
              subst (λ j. length (node_of.id n) < length j) (sym own) h.0.1,
            ),
            found-Below n m h.1,
          ))

  sorted_children-Below : (n : N) → All (Below n) (sorted_children t n)
  unfolding sorted_children child_nodes
  sorted_children-Below n =
      All-sort _ (Below n) (child_nodes n t)
        (found-Below n (child_map (node_of.id n) t) (growing (node_of.id n)))

  total_mono : (f g : N → ℕ) (l : List N) → ((n : N) → f n ≤ g n) → total f l ≤ total g l
  unfolding total
  total_mono f g [] h = omega arith
  total_mono f g (n ∷ l) h = omega (arith, h n, total_mono f g l h)

  size_to_mono : (d d' : ℕ) (n : N) → d ≤ d' → size_to d t n ≤ size_to d' t n
  unfolding size_to
  size_to_mono zero zero n h = omega arith
  size_to_mono zero (suc d') n h = omega arith
  size_to_mono (suc d) zero n h = absurd (omega arith)
  size_to_mono (suc d) (suc d') n h = omega (
    arith,
    total_mono (size_to d t) (size_to d' t) (sorted_children t n)
        (λ c. size_to_mono d d' c (omega arith)),
  )

  abbrev longest_of : ℕ
  longest_of = longest (keys t.nodes)

  -- The weights of some children fit into a size.
  children-fit :
      (n : N) (d : ℕ) (l : List N)
      → All (Below n) l
      → longest_of ≤ d + length (node_of.id n)
      → total (weight t) l ≤ total (size_to d t) l
  unfolding total weight
  children-fit n d [] h enough = omega arith
  children-fit n d (c ∷ l) h enough =
      let first : weight t c ≤ size_to d t c =
        unfold weight in
        size_to_mono (suc longest_of - length (node_of.id c)) d c (omega (arith, enough, h.0.1)) in
      omega (arith, first, children-fit n d l h.1 enough)

  size_to-positive : (d : ℕ) (n : N) → 0 < size_to d t n
  unfolding size_to
  size_to-positive zero n = omega arith
  size_to-positive (suc d) n = omega arith

  weight_positive : (n : N) → 0 < weight t n
  unfolding weight
  weight_positive n = size_to-positive (suc longest_of - length (node_of.id n)) n

  has_it : (n : N) → InTree n → has_node (node_of.id n) t ≡ true
  unfolding has_node node
  has_it n h = ground (arith, h)

  InTree-length : (n : N) → InTree n → length (node_of.id n) ≤ longest_of
  InTree-length n h = longest-Bounded t (node_of.id n) (has_it n h)

  -- The weight of a node pays for itself and for its children.
  weight-sorted_children : (n : N) → total (weight t) (sorted_children t n) < weight t n
  unfolding total
  weight-sorted_children n = go (sorted_children t n) refl (sorted_children-Below n)
    where
      deep :
          (d : ℕ)
          → suc longest_of - length (node_of.id n) ≡ suc d
          → total (weight t) (sorted_children t n) < weight t n
      deep d e =
          let fit =
            children-fit n d (sorted_children t n) (sorted_children-Below n) (omega (arith, e)) in
          let whole : weight t n ≡ suc (total (size_to d t) (sorted_children t n)) =
            unfold weight in ap (λ k. size_to k t n) e in
          omega (arith, fit, whole)

      go :
          (l : List N)
          → sorted_children t n ≡ l
          → All (Below n) l
          → total (weight t) (sorted_children t n) < weight t n
      go [] e h =
          let positive : 0 < weight t n = unfold weight in size_to-positive _ n in
          let nothing : total (weight t) (sorted_children t n) ≡ 0 = rw (e, total) refl in
          omega (arith, positive, nothing)
      go (c ∷ l) e h =
          let short = InTree-length c h.0.0 in
          deep (longest_of - length (node_of.id n)) (omega (arith, short, h.0.1))

  module _ {S : Type 0} (P : S → Type 0) (Q : N → Type 0) (all_nodes : All Q (values t.nodes))
      (visitor : Visitor N S) (cond : WalkConditions N)
      (visits : (n : N) (s : S) → Q n → P s → Terminates (visitor n s).0 × P (visitor n s).1) where
    -- A walk that has ended, with its stack no heavier than a bound.
    abbrev Walked : {A : Type 0} → ℕ → Result A × Walker N S → Type 0
    Walked bound x =
        Terminates x.0 × P x.1.state × All Q x.1.stack × (total (weight t) x.1.stack ≤ bound)

    visit-Walked :
        (n : N) (w : Walker N S) (bound : ℕ)
        → Q n
        → P w.state
        → All Q w.stack
        → total (weight t) w.stack ≤ bound
        → Walked bound (visit visitor cond n w) × ((visit visitor cond n w).1.stack ≡ w.stack)
    unfolding visit
    visit-Walked n w bound there h stack fits =
        if-keeps (λ (x : Result (Unit {0}) × Walker N S). Walked bound x × (x.1.stack ≡ w.stack))
          (not (Sets.has_member w.visited (node_of.id n)) && holds true cond.should_visit n) _ _
          (λ e. marked (visitor n w.state) (visits n w.state there h))
          (λ e. ((tt, h, stack, fits), refl))
      where
        marked :
            (x : Result (Unit {0}) × S)
            → Terminates x.0 × P x.1
            → Walked bound (mark (node_of.id n) w x) × ((mark (node_of.id n) w x).1.stack ≡ w.stack)
        marked (ok u, s) k = unfold mark in ((tt, k.1, stack, fits), refl)
        marked (err e, s) k = unfold mark in ((k.0, k.1, stack, fits), refl)

    weaken-Walked :
        {A : Type 0} (low high : ℕ) (x : Result A × Walker N S)
        → low ≤ high
        → Walked low x
        → Walked high x
    weaken-Walked low high x less h = (h.0, h.1, h.2, omega (arith, less, h.3))

    after-Walked :
        {A B : Type 0} (low high : ℕ) (x : Result A × Walker N S)
        (f : A → Walker N S → Result B × Walker N S)
        → Walked low x
        → low ≤ high
        → ((a : A) (w : Walker N S)
            → P w.state
            → All Q w.stack
            → total (weight t) w.stack ≤ low
            → Walked high (f a w))
        → Walked high (after x f)
    after-Walked low high (ok a, w) f h less next = next a w h.1 h.2 h.3
    after-Walked {A} low high (err e, w) f h less next =
        weaken-Walked {A = A} low high (err e, w) less h

    children-Q : (n : N) (l : List N) → All (Below n) l → All Q l
    children-Q n [] h = tt
    children-Q n (c ∷ l) h =
        (value_of Q (node_of.id c) c t.nodes all_nodes (unfold node in h.0.0), children-Q n l h.1)

    walk_loop-Walked :
        (fuel : ℕ) (stack : List N) (w : Walker N S)
        → total (weight t) stack ≤ fuel
        → All Q stack
        → P w.state
        → Walked (total (weight t) stack) (walk_loop t visitor cond fuel stack w)
    unfolding walk_loop total
    walk_loop-Walked zero [] w enough there h = (tt, h, tt, omega arith)
    walk_loop-Walked (suc fuel) [] w enough there h = (tt, h, tt, omega arith)
    walk_loop-Walked zero (n ∷ stack) w enough there h =
        absurd (omega (arith, enough, weight-sorted_children n))
    walk_loop-Walked (suc fuel) (n ∷ stack) w enough there h =
        let all = total-append (weight t) (sorted_children t n) stack in
        let paid = weight-sorted_children n in
        let bound = total (weight t) stack in
        let less : bound ≤ weight t n + bound = omega arith in
        if-keeps (Walked (weight t n + bound)) (holds false cond.should_terminate n) _ _
          (λ e. (tt, h, there.1, less))
          (λ e.
            after-Walked bound (weight t n + bound)
              (visit visitor cond n (record w { stack = stack })) _
              (visit-Walked n (record w { stack = stack }) bound there.0 h there.1 (omega arith)).0
              less
              (λ u w1 h1 there1 fits.
                if-keeps (Walked (weight t n + bound)) (holds true cond.should_continue_branch n) _
                  _
                  (λ e'.
                    weaken-Walked (total (weight t) (sorted_children t n ++ stack))
                      (weight t n + bound)
                      (walk_loop t visitor cond fuel (sorted_children t n ++ stack) w1)
                      (omega (arith, all, paid))
                      (walk_loop-Walked fuel (sorted_children t n ++ stack) w1
                        (omega (arith, all, paid, enough))
                        (All-append Q (sorted_children t n) stack
                          (children-Q n (sorted_children t n) (sorted_children-Below n)) there.1)
                        h1))
                  (λ e'.
                    weaken-Walked bound (weight t n + bound)
                      (walk_loop t visitor cond fuel stack w1) less
                      (walk_loop-Walked fuel stack w1 (omega (arith, enough, weight_positive n))
                        there.1 h1))))

    walk_from-Walked :
        (fuel : ℕ) (ns : List N) (w : Walker N S)
        → total (weight t) w.stack + total (weight t) ns ≤ fuel
        → All Q w.stack
        → All Q ns
        → P w.state
        → Walked fuel (walk_from t visitor cond fuel ns w)
    unfolding walk_from walk total
    walk_from-Walked fuel [] w enough stack there h = (tt, h, stack, omega (arith, enough))
    walk_from-Walked fuel (n ∷ ns) w enough stack there h =
        let start = total (weight t) (n ∷ w.stack) in
        after-Walked start fuel (walk_loop t visitor cond fuel (n ∷ w.stack) w) _
          (walk_loop-Walked fuel (n ∷ w.stack) w (omega (arith, enough)) (there.0, stack) h)
          (omega (arith, enough))
          (λ stopped w1 h1 stack1 fits.
            walk_from-Walked fuel ns w1 (omega (arith, enough, fits)) stack1 there.1 h1)

    roots_among-Q : (ns : List N) → All Q ns → All Q (roots_among t ns)
    unfolding roots_among
    roots_among-Q [] h = tt
    roots_among-Q (n ∷ ns) h =
        Option-keeps (All Q) (parent_of (node_of.id n) t) _ _ (λ e. (h.0, roots_among-Q ns h.1))
          (λ p e. roots_among-Q ns h.1)

    -- Over a tree in which each node stands under its identity, and each child has a longer identity than its
    -- parent, the walk from all roots ends, on fuel for the weights of the roots, if each visit of a
    -- node of the tree ends; and it keeps what each visit keeps.
    pub walk_all-Terminates :
        (s : S)
        → P s
        → Terminates (walk_all t visitor cond (total (weight t) (roots t)) (new_walker s)).0
          × P (walk_all t visitor cond (total (weight t) (roots t)) (new_walker s)).1.state
    unfolding walk_all roots
    walk_all-Terminates s h =
        let r =
          walk_from-Walked (total (weight t) (roots t)) (roots t) (new_walker s)
            (unfold total in omega arith) tt (roots_among-Q (values t.nodes) all_nodes) h in
        (r.0, r.1)
