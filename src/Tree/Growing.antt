-- ===== src/Tree/Growing.antt =====
-- Trees of pkg/tree in which each child has a longer identity than its parent: `RemoveNode` ends.
use mathlib.Core.Path.{subst}
use stereoscope.Errors.{Result, ok, err, bind-eq-ok}
use stereoscope.Go.Maps.{GoMap, get, put, delete, has, keys, values, get-put, get-delete}
use stereoscope.Tree.{
  NodeId, Node, Tree, has_node, child_map, parent_of, or_empty, put_child, delete_child, add_node,
  ensure_node, add_child,
}
use stereoscope.Tree.Remove.{detach}
use stereoscope.Tree.Sizes.{longest}
use stereoscope.Prelude.{
  ◌≤◌, ◌<◌, [], ◌∷◌, Option, none, some, true, byte_string_eq, str_eq, str_eq_iff, Eq, length, ◌≡◌,
  refl, sym, arith, All, ◌⊎◌, if◌then◌else◌, if-keeps, Bool-cases, inl, inr,
}

module _ {K V : Type 0} ⦃e : Eq K⦄ (P : K × V → Type 0) where
  All-put : (k : K) (v : V) (m : GoMap K V) → P (k, v) → All P m → All P (put k v m)
  unfolding put
  All-put k v [] p h = (p, tt)
  All-put k v ((j, w) ∷ m) p h =
      if-keeps (All P) (e.beq j k) _ _
        (λ same. (subst (λ i. P (i, v)) (sym ((e.beq_iff j k).0 same)) p, h.1))
        (λ other. (h.0, All-put k v m p h.1))

  All-delete : (k : K) (m : GoMap K V) → All P m → All P (delete k m)
  unfolding delete
  All-delete k [] h = tt
  All-delete k ((j, w) ∷ m) h =
      if-keeps (All P) (e.beq j k) _ _ (λ same. All-delete k m h.1)
        (λ other. (h.0, All-delete k m h.1))

-- What all values of a map have.
module _ {K V : Type 0} ⦃e : Eq K⦄ (Q : V → Type 0) where
  pub values-put :
      (k : K) (v : V) (m : GoMap K V) → Q v → All Q (values m) → All Q (values (put k v m))
  unfolding put
  values-put k v [] q h = (q, tt)
  values-put k v ((j, w) ∷ m) q h =
      if-keeps (λ (l : GoMap K V). All Q (values l)) (e.beq j k) _ _ (λ same. (q, h.1))
        (λ other. (h.0, values-put k v m q h.1))

  pub values-delete : (k : K) (m : GoMap K V) → All Q (values m) → All Q (values (delete k m))
  unfolding delete
  values-delete k [] h = tt
  values-delete k ((j, w) ∷ m) h =
      if-keeps (λ (l : GoMap K V). All Q (values l)) (e.beq j k) _ _ (λ same. values-delete k m h.1)
        (λ other. (h.0, values-delete k m h.1))

pub value_of :
    {N : Type 0} (Q : N → Type 0) (k : NodeId) (n : N) (m : GoMap NodeId N)
    → All Q (values m)
    → get k m ≡ some n
    → Q n
unfolding get
value_of Q k n [] h e = cc
value_of Q k n ((j, v) ∷ m) h e = elim (Bool-cases (str_eq j k)) [
  | inl same ↦ subst Q (ground (arith, same, e)) h.0
  | inr other ↦ value_of Q k n m h.1 (ground (arith, other, e))
]

pub length-longest :
    {V : Type 0} (k : NodeId) (m : GoMap NodeId V) → has k m ≡ true → length k ≤ longest (keys m)
unfolding longest get
length-longest k [] h = cc
length-longest k ((j, v) ∷ m) h = elim (Bool-cases (str_eq j k)) [
  | inl same ↦ ground (arith, (str_eq_iff j k).0 same)
  | inr other ↦ ground (arith, length-longest k m, other)
]

module _ {N : Type 0} ⦃node_of : Node N⦄ where
  -- A child has its own identity for its key, which is longer than that of its parent.
  abbrev pub Edge : NodeId → NodeId × N → Type 0
  Edge k c = (node_of.id c.1 ≡ c.0) × (length k < length c.0)

  abbrev pub Growing : Tree N → Type 0
  Growing t = (k : NodeId) → All (Edge k) (child_map k t)

  child_map-put_child :
      (p c k : NodeId) (n : N) (t t' : Tree N)
      → put_child p c n t ≡ ok t'
      → child_map k t' ≡ (if str_eq p k then put c n (child_map p t) else child_map k t)
  unfolding put_child child_map
  child_map-put_child p c k n t t' h =
      ground (arith, get-put p k (put c n (or_empty (get p t.children))) t.children, str_eq_iff p k)

  child_map-delete_child :
      (p c k : NodeId) (t : Tree N)
      → child_map k (delete_child p c t)
        ≡ (if str_eq p k then delete c (child_map p t) else child_map k t)
  unfolding delete_child child_map delete
  child_map-delete_child p c k t =
      ground
        (arith, get-put p k (delete c (or_empty (get p t.children))) t.children, str_eq_iff p k)

  put_child-Growing :
      (p c : NodeId) (n : N) (t t' : Tree N)
      → put_child p c n t ≡ ok t'
      → Edge p (c, n)
      → Growing t
      → Growing t'
  put_child-Growing p c n t t' done edge h k =
      subst (All (Edge k)) (sym (child_map-put_child p c k n t t' done)) (
        if-keeps (All (Edge k)) (str_eq p k) _ _
          (λ same.
            subst (λ q. All (Edge q) (put c n (child_map p t))) ((str_eq_iff p k).0 same)
              (All-put (Edge p) c n (child_map p t) edge (h p)))
          (λ other. h k))

  child_map-ensure_node :
      (n : N) (t t' : Tree N) (k : NodeId)
      → ensure_node n t ≡ ok t'
      → (child_map k t' ≡ child_map k t) ⊎ (child_map k t' ≡ [])
  unfolding ensure_node add_node child_map
  child_map-ensure_node n t t' k h = elim (Bool-cases (str_eq (node_of.id n) k)) [
    | inl same ↦ elim (Bool-cases (has_node (node_of.id n) t)) [
      | inl there ↦ inl (ground arith)
      | inr new ↦ inr (ground (arith, get-put (node_of.id n) k [] t.children, same, new))
    ]
    | inr other ↦ inl (ground (arith, get-put (node_of.id n) k [] t.children, other))
  ]

  ensure_node-Growing : (n : N) (t t' : Tree N) → ensure_node n t ≡ ok t' → Growing t → Growing t'
  ensure_node-Growing n t t' done h k = elim (child_map-ensure_node n t t' k done) [
    | inl same ↦ subst (All (Edge k)) (sym same) (h k)
    | inr nothing ↦ subst (All (Edge k)) (sym nothing) tt
  ]

  -- A child with a longer identity may be added.
  pub add_child-Growing :
      (from to : N) (t t' : Tree N)
      → add_child from to t ≡ ok t'
      → length (node_of.id from) < length (node_of.id to)
      → Growing t
      → Growing t'
  unfolding add_child child_map
  add_child-Growing from to t t' done longer h =
      elim (Bool-cases (str_eq (node_of.id from) (node_of.id to))) [
        | inl same ↦ cc (rw same at done)
        | inr other ↦
            let (t1, e1, d1) = bind-eq-ok (ensure_node from t) _ (rw other at done) in
            let (t2, e2, d2) = bind-eq-ok (ensure_node to t1) _ d1 in
            let (t3, e3, d3) =
              bind-eq-ok (put_child (node_of.id from) (node_of.id to) to t2) _ d2 in
            let grown =
              put_child-Growing (node_of.id from) (node_of.id to) to t2 t3 e3 (refl, longer)
                (ensure_node-Growing to t1 t2 e2 (ensure_node-Growing from t t1 e1 h)) in
            last t3 grown d3
      ]
    where
      last :
          (t3 : Tree N)
          → Growing t3
          → ok (record t3 { parent = put (node_of.id to) (some from) t3.parent }) ≡ ok t'
          → Growing t'
      last t3 grown e = subst (λ (x : Result (Tree N)). grows x) e grown
        where
          grows : Result (Tree N) → Type 0
          grows (ok u) = Growing u
          grows (err f) = Unit

  delete_children-Growing :
      (id : NodeId) (t : Tree N)
      → Growing t
      → Growing (record t { children = delete id t.children })
  unfolding child_map
  delete_children-Growing id t h k =
      subst (λ (o : Option (GoMap NodeId N)). All (Edge k) (or_empty o))
        (sym (get-delete id k t.children))
        (if-keeps (λ o. All (Edge k) (or_empty o)) (str_eq id k) none (get k t.children) (λ e. tt)
          (λ e. h k))

  pub delete_child-Growing : (p c : NodeId) (t : Tree N) → Growing t → Growing (delete_child p c t)
  delete_child-Growing p c t h k = subst (All (Edge k)) (sym (child_map-delete_child p c k t)) (
      if-keeps (All (Edge k)) (str_eq p k) _ _
        (λ same.
          All-delete (Edge k) c (child_map p t)
            (subst (λ q. All (Edge k) (child_map q t)) (sym ((str_eq_iff p k).0 same)) (h k)))
        (λ other. h k))

  pub detach-Growing : (id : NodeId) (t : Tree N) → Growing t → Growing (detach id t)
  unfolding detach child_map
  detach-Growing id t h = go (parent_of id (record t { children = delete id t.children }))
    where
      cut : Growing (record t { children = delete id t.children })
      cut = delete_children-Growing id t h

      go :
          (x : Option N)
          → Growing (elim x as (λ y. Tree N) [
            | none ↦ record t { children = delete id t.children }
            | some p ↦ delete_child (node_of.id p) id (record t { children = delete id t.children })
          ])
      go none = cut
      go (some p) = delete_child-Growing (node_of.id p) id _ cut
