-- ===== src/Tree/Sizes.antt =====
-- How much of a tree of pkg/tree lies below a node: the fuel of its walks and removals.
use stereoscope.Go.Maps.{keys}
use stereoscope.Tree.{NodeId, Node, Tree}
use stereoscope.Tree.Walk.{sorted_children}
use stereoscope.Prelude.{
  ℕ, zero, suc, ◌+◌, ◌-◌, List, [], ◌∷◌, ◌++◌, length, leb, if◌then◌else◌, ◌≡◌, arith,
}

-- The length of the longest identity.
unfoldable pub longest : List NodeId → ℕ
longest [] = 0
longest (k ∷ ks) = let rest = longest ks in if leb (length k) rest then rest else length k

-- The sum of a measure.
unfoldable pub total : {A : Type 0} → (A → ℕ) → List A → ℕ
total f [] = 0
total f (x ∷ xs) = f x + total f xs

pub total-append :
    {A : Type 0} (f : A → ℕ) (xs ys : List A) → total f (xs ++ ys) ≡ total f xs + total f ys
unfolding total
total-append f [] ys = omega arith
total-append f (x ∷ xs) ys = omega (arith, total-append f xs ys)

module _ {N : Type 0} ⦃node_of : Node N⦄ where
  -- The nodes down to a depth below a node, and itself.
  unfoldable pub size_to : ℕ → Tree N → N → ℕ
  unfolding total
  size_to zero t n = 1
  size_to (suc d) t n = suc (total (size_to d t) (sorted_children t n))

  -- All nodes below a node, and itself, in a tree in which children have longer identities.
  unfoldable pub weight : Tree N → N → ℕ
  unfolding size_to longest
  weight t n = size_to (suc (longest (keys t.nodes)) - length (node_of.id n)) t n
