-- ===== src/Tree.antt =====
-- pkg/tree/tree.go: a tree as three maps over the identities of its nodes.
pub mod Remove
pub mod Walk
pub mod Shrinks
pub mod Copies
pub mod Invariant
pub mod Sizes
pub mod Growing
pub mod Emptied
pub mod Ends
use stereoscope.Errors.{Result, ok, err, ◌>>=◌, id_collision, not_in_tree, self_edge, panics}
use stereoscope.Go.Maps.{GoMap, get, put, delete, has, keys, values}
use stereoscope.Prelude.{
  ℕ, zero, suc, List, [], ◌∷◌, ◌++◌, Option, none, some, Bool, true, false, not, Str,
  byte_string_eq, str_eq, length, if◌then◌else◌,
}

abbrev pub NodeId : Type 0
NodeId = Str

-- `node.Node`: a type of nodes with their identities and their copies.
pub record Node (N : Type 0) : Type 0 where
  pub id : N → NodeId
  pub copy : N → N

-- `Tree`; the missing pointer to a parent is `none`.
pub record Tree (N : Type 0) : Type 0 where
  pub nodes : GoMap NodeId N
  pub children : GoMap NodeId (GoMap NodeId N)
  pub parent : GoMap NodeId (Option N)

abbrev pub flat {ℓ} : {A : Type ℓ} → Option (Option A) → Option A
flat none = none
flat (some o) = o

abbrev pub or_empty {ℓ} : {A : Type ℓ} → Option (List A) → List A
or_empty none = []
or_empty (some l) = l

module _ {N : Type 0} where
  -- `NewTree`
  abbrev pub new_tree : Tree N
  new_tree = record { nodes = []; children = []; parent = [] }

  -- `HasNode`
  unfoldable pub has_node : NodeId → Tree N → Bool
  has_node id t = has id t.nodes

  -- `Node`; a missing node is nil.
  unfoldable pub node : NodeId → Tree N → Option N
  node id t = get id t.nodes

  -- `Nodes`
  unfoldable pub all_nodes : Tree N → List N
  all_nodes t = values t.nodes

  -- `Length`
  unfoldable pub tree_length : Tree N → ℕ
  tree_length t = length t.nodes

  -- `t.children[id]`: the nil map where there is none.
  unfoldable pub child_map : NodeId → Tree N → GoMap NodeId N
  child_map id t = or_empty (get id t.children)

  -- `t.parent[id]`: nil for a root, and where there is none.
  unfoldable pub parent_of : NodeId → Tree N → Option N
  parent_of id t = flat (get id t.parent)

  -- `t.children[parent][child] = n`, a panic if the inner map is nil
  unfoldable pub put_child : NodeId → NodeId → N → Tree N → Result (Tree N)
  put_child p c n t = elim (get p t.children) [
    | none ↦ err panics
    | some m ↦ ok (record t { children = put p (put c n m) t.children })
  ]

  -- `delete(t.children[parent], child)`: nothing happens where the inner map is nil.
  unfoldable pub delete_child : NodeId → NodeId → Tree N → Tree N
  delete_child p c t = elim (get p t.children) [
    | none ↦ t
    | some m ↦ record t { children = put p (delete c m) t.children }
  ]

  -- Where `t.nodes[c]` is missing, Go stores a nil node; the model stores none.
  unfoldable pub found : GoMap NodeId N → List NodeId → List N
  found m [] = []
  found m (c ∷ cs) = elim (get c m) [ none ↦ found m cs | some n ↦ n ∷ found m cs ]

module _ {N : Type 0} ⦃node_of : Node N⦄ where
  -- `Copy`
  copy_entries : GoMap NodeId N → GoMap NodeId N
  copy_entries [] = []
  copy_entries ((k, v) ∷ m) = (k, node_of.copy v) ∷ copy_entries m

  copy_parents : GoMap NodeId (Option N) → GoMap NodeId (Option N)
  copy_parents [] = []
  copy_parents ((k, none) ∷ m) = (k, none) ∷ copy_parents m
  copy_parents ((k, some v) ∷ m) = (k, some (node_of.copy v)) ∷ copy_parents m

  copy_children : GoMap NodeId (GoMap NodeId N) → GoMap NodeId (GoMap NodeId N)
  unfolding copy_entries
  copy_children [] = []
  copy_children ((k, v) ∷ m) = (k, copy_entries v) ∷ copy_children m

  unfoldable pub copy_tree : Tree N → Tree N
  unfolding copy_entries copy_parents copy_children
  copy_tree t = record {
    nodes = copy_entries t.nodes;
    children = copy_children t.children;
    parent = copy_parents t.parent;
  }

  unfoldable pub roots_among : Tree N → List N → List N
  roots_among t [] = []
  roots_among t (n ∷ ns) =
      let rest = roots_among t ns in
      elim (parent_of (node_of.id n) t) [ none ↦ n ∷ rest | some p ↦ rest ]

  -- `Roots`
  unfoldable pub roots : Tree N → List N
  unfolding roots_among
  roots t = roots_among t (values t.nodes)

  -- `addNode`
  unfoldable pub add_node : N → Tree N → Result (Tree N)
  add_node n t =
      if has_node (node_of.id n) t
      then err (id_collision (node_of.id n))
      else ok (record {
        nodes = put (node_of.id n) n t.nodes;
        children = put (node_of.id n) [] t.children;
        parent = put (node_of.id n) none t.parent;
      })

  -- `AddRoot`
  unfoldable pub add_root : N → Tree N → Result (Tree N)
  add_root n t = add_node n t

  -- `if !ok { addNode(n) } else { t.nodes[n.ID()] = n }`
  unfoldable pub ensure_node : N → Tree N → Result (Tree N)
  ensure_node n t =
      if has_node (node_of.id n) t
      then ok (record t { nodes = put (node_of.id n) n t.nodes })
      else add_node n t

  -- `AddChild`
  unfoldable pub add_child : N → N → Tree N → Result (Tree N)
  add_child from to t =
      if str_eq (node_of.id from) (node_of.id to) then err (self_edge (node_of.id from)) else do
        t1 ← ensure_node from t
        t2 ← ensure_node to t1
        t3 ← put_child (node_of.id from) (node_of.id to) to t2
        ok (record t3 { parent = put (node_of.id to) (some from) t3.parent })

  -- The loop of `Replace` over the children of the old node.
  move_children : N → List NodeId → Tree N → Result (Tree N)
  move_children new [] t = ok t
  move_children new (c ∷ cs) t =
      let t1 = record t { parent = put c (some new) t.parent } in
      elim (get c t1.nodes) [
        | none ↦ move_children new cs t1
        | some n ↦ put_child (node_of.id new) c n t1 >>= move_children new cs
      ]

  -- `Replace` of a node by one with another identity; a root has no parent, which is a panic.
  replace_other : N → N → Tree N → Result (Tree N)
  unfolding move_children
  replace_other old new t = do
    t1 ← add_node new t
    let t2 = record t1 { parent = put (node_of.id new) (parent_of (node_of.id old) t1) t1.parent }
    t3 ← move_children new (keys (child_map (node_of.id old) t2)) t2
    elim (parent_of (node_of.id old) t3) [
      | none ↦ err panics
      | some p ↦ do
        t4 ←
            put_child (node_of.id p) (node_of.id new) new
              (delete_child (node_of.id p) (node_of.id old) t3)
        ok (record {
          nodes = delete (node_of.id old) t4.nodes;
          children = delete (node_of.id old) t4.children;
          parent = delete (node_of.id old) t4.parent;
        })
    ]

  -- `Replace`
  unfoldable pub replace : N → N → Tree N → Result (Tree N)
  unfolding replace_other
  replace old new t =
      if not (has_node (node_of.id old) t)
      then err (not_in_tree (node_of.id old))
      else if str_eq (node_of.id old) (node_of.id new)
      then ok (record t { nodes = put (node_of.id new) new t.nodes })
      else replace_other old new t

  -- `Children`
  unfoldable pub child_nodes : N → Tree N → List N
  unfolding found
  child_nodes n t = found t.nodes (keys (child_map (node_of.id n) t))

  -- `Parent`
  unfoldable pub parent_node : N → Tree N → Option N
  parent_node n t = parent_of (node_of.id n) t
