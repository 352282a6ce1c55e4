-- ===== src/Search/Terminates.antt =====
-- `pathsToNode` of pkg/filetree/search.go ends: the nodes that are observed grow with each call inside another.
use stereoscope.Errors.{Result, Failure, ok, err, Act, after, IsLinkFailure, link_cycle, link_depth}
use stereoscope.File.Paths.{FilePath}
use stereoscope.File.Sets
use stereoscope.File.Sets.{IdSet}
use stereoscope.FileTree.Keyed.{IsKeyed}
use stereoscope.FileTree.Nodes.{FileNode}
use stereoscope.Go.Maps.{GoMap, get, put, get-put, keys, elem}
use stereoscope.Go.Sort.{sort}
use stereoscope.Go.Strings.{str_lt}
use stereoscope.Search.Paths.{
  BackwardRefs, PathState, PathFinder, links_to, from_links, from_paths, observe, forget,
  find_paths, remember, paths_to_node, paths_fuel, all_paths_to_node,
}
use stereoscope.Tree
use stereoscope.Tree.{Tree, NodeId}
use stereoscope.Prelude.{
  inl, inr, ℕ, zero, suc, ◌<◌, List, [], ◌∷◌, some, true, false, byte_string_eq, length, ◌≡◌, ◌≢◌,
  refl, arith, if-keeps, Option-keeps, ◌⊎◌,
}
use stereoscope.Search.Unseen.{
  unseen, IsClean, Ends, Finds, length-outside, outside-add-lt, from_links-Ends, from_paths-Ends,
  forget-Ends, SameMembers,
}

module _ (n : FileNode) (s : PathState) where
  abbrev Continues : Type 0
  Continues = IdSet FilePath → Act PathState (IdSet FilePath)

  both-Ends :
      (x : Result (IdSet FilePath) × PathState) (f : Continues)
      → Sets.has_member s.observed n.real_path ≡ false
      → Ends (observe n s) x
      → ((paths : IdSet FilePath) (s1 : PathState)
          → SameMembers (observe n s) s1
          → IsClean s1
          → Ends (observe n s) (f paths s1))
      → Ends s (after x (λ paths s1. after (f paths s1) (λ paths' s2. (ok paths', forget n s2))))
  both-Ends (ok paths, s1) f new h g = forget-Ends n s (f paths s1) new (g paths s1 h.0 h.1)
  both-Ends (err e, s1) f new h g = h

  find_paths-Ends :
      (t : Tree FileNode) (refs : BackwardRefs) (find : PathFinder) (k : ℕ)
      → Finds t find k
      → IsClean s
      → (Sets.has_member s.observed n.real_path ≡ false → length (unseen t (observe n s)) < k)
      → Ends s (find_paths t refs find n s)
  unfolding find_paths
  find_paths-Ends t refs find k finds clean few =
      if-keeps (Ends s) (Sets.has_member s.observed n.real_path) _ _ (λ e. (λ p. refl, clean))
        (λ new.
          both-Ends
            (from_links t find (links_to refs n) (Sets.add (n.real_path ∷ []) []) (observe n s))
            (λ paths s1. from_paths t find (Sets.to_list paths) paths s1) new
            (from_links-Ends t find k finds (observe n s) (few new) (links_to refs n)
              (Sets.add (n.real_path ∷ []) []) (observe n s) (λ p. refl) clean)
            (λ paths s1.
              from_paths-Ends t find k finds (observe n s) (few new) (Sets.to_list paths) paths s1))

  put-IsClean :
      (r : Result (IdSet FilePath)) (cache : GoMap FilePath (Result (IdSet FilePath)))
      (p : FilePath) (e : Failure)
      → r ≢ err e
      → (get p cache ≡ some (err e) → IsLinkFailure e)
      → get p (put n.real_path r cache) ≡ some (err e)
      → IsLinkFailure e
  put-IsClean r cache p e h clean at = clean (ground (arith, get-put n.real_path p r cache))

  remember-Ends : (x : Result (IdSet FilePath) × PathState) → Ends s x → Ends s (remember n x)
  remember-Ends (ok paths, s1) h =
      (h.0, λ p e. put-IsClean (ok paths) s1.cache p e (λ c. cc) (h.1 p e))
  remember-Ends (err e, s1) h = h

  cached-Ends :
      (r : Result (IdSet FilePath)) → get n.real_path s.cache ≡ some r → IsClean s → Ends s (r, s)
  cached-Ends (ok paths) at clean = (λ p. refl, clean)
  cached-Ends (err e) at clean = clean n.real_path e at

length-keys : (m : GoMap NodeId FileNode) → length (keys m) ≡ length m
length-keys [] = refl
length-keys ((k, v) ∷ m) = omega (arith, length-keys m)

elem-keys-get :
    (q : NodeId) (n : FileNode) (m : GoMap NodeId FileNode)
    → get q m ≡ some n
    → elem q (keys m) ≡ true
unfolding elem get
elem-keys-get q n [] h = cc
elem-keys-get q n ((j, v) ∷ m) h = ground (arith, elem-keys-get q n m)

module _ (t : Tree FileNode) (refs : BackwardRefs) (keyed : IsKeyed t) where
  fewer_unseen :
      (n : FileNode) (q : NodeId) (s : PathState)
      → Tree.node q t ≡ some n
      → Sets.has_member s.observed n.real_path ≡ false
      → length (unseen t (observe n s)) < length (unseen t s)
  fewer_unseen n q s at new =
      outside-add-lt n.real_path s.observed (keys t.nodes) new
        (rw (keyed q n at) (elem-keys-get q n t.nodes (unfold Tree.node in at)))

  paths_to_node-Finds : (k : ℕ) → Finds t (paths_to_node t refs k) k
  unfolding paths_to_node
  paths_to_node-Finds zero n q s at clean few = absurd (omega arith)
  paths_to_node-Finds (suc k) n q s at clean few =
      Option-keeps (Ends s) (get n.real_path s.cache) _ _
        (λ e. remember-Ends n s (find_paths t refs (paths_to_node t refs k) n s) (
          find_paths-Ends n s t refs (paths_to_node t refs k) k (paths_to_node-Finds k) clean
            (λ new. omega (arith, fewer_unseen n q s at new))))
        (λ r e. cached-Ends n s r e clean)

  -- The first call may be at a node that is not in the tree.
  paths_to_node-Ends :
      (n : FileNode)
      → Ends
          (record { observed = []; cache = [] })
          (paths_to_node t refs (paths_fuel t) n (record { observed = []; cache = [] }))
  unfolding paths_to_node paths_fuel get
  paths_to_node-Ends n =
      remember-Ends n start
        (find_paths t refs (paths_to_node t refs (suc (length t.nodes))) n start)
        (find_paths-Ends n start t refs (paths_to_node t refs (suc (length t.nodes)))
          (suc (length t.nodes)) (paths_to_node-Finds (suc (length t.nodes))) (λ p e c. cc)
          (λ new.
            omega (
              arith,
              length-outside (observe n start).observed (keys t.nodes),
              length-keys t.nodes,
            )))
    where
      start : PathState
      start = record { observed = []; cache = [] }

  -- In a tree with every node under its own path, the search for all paths to a node ends, whatever the links
  -- that lead to the nodes are: it lists paths, or fails with a link cycle or at the link depth.
  pub all_paths_to_node-ends :
      (n : FileNode)
      → ((paths : List FilePath) × (all_paths_to_node t refs n ≡ ok paths))
        ⊎ ((all_paths_to_node t refs n ≡ err link_cycle)
            ⊎ (all_paths_to_node t refs n ≡ err link_depth))
  unfolding all_paths_to_node
  all_paths_to_node-ends n = go (paths_to_node t refs (paths_fuel t) n _) (paths_to_node-Ends n)
    where
      sorted_result : Result (IdSet FilePath) → Result (List FilePath)
      sorted_result x = elim x [ err e ↦ err e | ok paths ↦ ok (sort str_lt (Sets.to_list paths)) ]

      go :
          (x : Result (IdSet FilePath) × PathState)
          → Ends (record { observed = []; cache = [] }) x
          → ((paths : List FilePath) × (sorted_result x.0 ≡ ok paths))
            ⊎ ((sorted_result x.0 ≡ err link_cycle) ⊎ (sorted_result x.0 ≡ err link_depth))
      go (ok paths, s') h = inl (sort str_lt (Sets.to_list paths), refl)
      go (err e, s') (inl c) = inr (inl (rw c refl))
      go (err e, s') (inr c) = inr (inr (rw c refl))
