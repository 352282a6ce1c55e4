-- ===== src/Search/Unseen.antt =====
-- The calls inside `_pathsToNode` of pkg/filetree/search.go: what its loops keep, by the nodes that are not observed.
use stereoscope.Errors.{Result, Failure, ok, err, Act, after, IsLinkFailure}
use stereoscope.File.Paths.{FilePath, basename, constituent_paths, root}
use stereoscope.File.Sets
use stereoscope.File.Sets.{IdSet}
use stereoscope.File.Sets.Laws.{has_member-add, has_member-remove}
use stereoscope.FileTree.Ancestors.{MayBeFromTree}
use stereoscope.FileTree.Edit.{ancestors_only}
use stereoscope.FileTree.Reached.{Found, node_access-Found}
use stereoscope.FileTree.Listings.{outside}
use stereoscope.FileTree.Lookup.{node_access}
use stereoscope.FileTree.Nodes.{FileNode, NodeAccess, access}
use stereoscope.Go.Maps.{get, keys, elem}
use stereoscope.Go.Paths.{join_path}
use stereoscope.Go.Sort.{sort}
use stereoscope.Go.Strings.{str_lt}
use stereoscope.Search.Paths.{
  PathState, PathFinder, from_links, from_parent, from_parents, from_paths, observe, forget,
}
use stereoscope.Tree
use stereoscope.Tree.{Tree, NodeId}
use stereoscope.Prelude.{
  ℕ, ◌<◌, ◌≤◌, List, [], ◌∷◌, Option, none, some, true, false, Str, str_eq, str_eq_iff,
  byte_string_eq, length, ◌≡◌, ◌∙◌, refl, arith, if-keeps, Option-keeps, not, ◌&&◌, ◌||◌,
}

-- The identities of the tree that are not observed.
abbrev pub unseen : Tree FileNode → PathState → List NodeId
unseen t s = outside s.observed (keys t.nodes)

abbrev pub SameMembers : PathState → PathState → Type 0
SameMembers s s' = (k : FilePath) → Sets.has_member s'.observed k ≡ Sets.has_member s.observed k

-- The cache holds no failures but those of links.
abbrev pub IsClean : PathState → Type 0
IsClean s = (p : FilePath) (e : Failure) → get p s.cache ≡ some (err e) → IsLinkFailure e

abbrev pub Ends : {A : Type 0} → PathState → Result A × PathState → Type 0
Ends s (ok a, s') = SameMembers s s' × IsClean s'
Ends s (err e, s') = IsLinkFailure e

after-Ends :
    {A B : Type 0} (s : PathState) (x : Result A × PathState) (f : A → Act PathState B)
    → Ends s x
    → ((a : A) (s1 : PathState) → SameMembers s s1 → IsClean s1 → Ends s (f a s1))
    → Ends s (after x f)
after-Ends s (ok a, s1) f h g = g a s1 h.0 h.1
after-Ends s (err e, s1) f h g = h

-- Where the same nodes are observed, what ends from the one state ends from the other.
Ends-from :
    {A : Type 0} (s s1 : PathState) (x : Result A × PathState)
    → SameMembers s s1
    → Ends s1 x
    → Ends s x
Ends-from s s1 (ok a, s') same h = (λ k. h.0 k ∙ same k, h.1)
Ends-from s s1 (err e, s') same h = h

outside-SameMembers :
    (s s' : IdSet NodeId) (ks : List NodeId)
    → ((k : NodeId) → Sets.has_member s' k ≡ Sets.has_member s k)
    → outside s' ks ≡ outside s ks
unfolding outside
outside-SameMembers s s' [] h = refl
outside-SameMembers s s' (k ∷ ks) h = ground (arith, outside-SameMembers s s' ks h, h k)

pub length-outside : (s : IdSet NodeId) (ks : List NodeId) → length (outside s ks) ≤ length ks
unfolding outside
length-outside s [] = omega arith
length-outside s (k ∷ ks) = ground (arith, length-outside s ks)

member-add :
    (k j : NodeId) (s : IdSet NodeId)
    → Sets.has_member (Sets.add (k ∷ []) s) j ≡ (str_eq k j || Sets.has_member s j)
member-add k j s = has_member-add (k ∷ []) s j ∙ (unfold elem in ground arith)

outside-add-le :
    (k : NodeId) (s : IdSet NodeId) (ks : List NodeId)
    → length (outside (Sets.add (k ∷ []) s) ks) ≤ length (outside s ks)
unfolding outside
outside-add-le k s [] = omega arith
outside-add-le k s (j ∷ ks) = ground (arith, outside-add-le k s ks, member-add k j s)

-- One more observed node leaves fewer.
pub outside-add-lt :
    (k : NodeId) (s : IdSet NodeId) (ks : List NodeId)
    → Sets.has_member s k ≡ false
    → elem k ks ≡ true
    → length (outside (Sets.add (k ∷ []) s) ks) < length (outside s ks)
unfolding outside elem
outside-add-lt k s [] new at = cc
outside-add-lt k s (j ∷ ks) new at = ground (
  arith,
  outside-add-lt k s ks new,
  outside-add-le k s ks,
  member-add k j s,
  str_eq_iff k j,
  str_eq_iff j k,
)

-- The finder ends from each state in which fewer nodes than `k` are not observed.
abbrev pub Finds : Tree FileNode → PathFinder → ℕ → Type 0
Finds t find k =
    (n : FileNode) (q : NodeId) (s : PathState)
    → Tree.node q t ≡ some n
    → IsClean s
    → length (unseen t s) < k
    → Ends s (find n s)

module _ (t : Tree FileNode) (find : PathFinder) (k : ℕ) (finds : Finds t find k) (s0 : PathState)
    (few : length (unseen t s0) < k) where
  found_at :
      (n : FileNode) (q : NodeId) (s : PathState)
      → Tree.node q t ≡ some n
      → SameMembers s0 s
      → IsClean s
      → Ends s0 (find n s)
  found_at n q s at same clean = Ends-from s0 s (find n s) same (
      finds n q s at clean
        (rw (outside-SameMembers s0.observed s.observed (keys t.nodes) same) few))

  pub from_links-Ends :
      (ls : List NodeId) (paths : IdSet FilePath) (s : PathState)
      → SameMembers s0 s
      → IsClean s
      → Ends s0 (from_links t find ls paths s)
  unfolding from_links
  from_links-Ends [] paths s same clean = (same, clean)
  from_links-Ends (l ∷ ls) paths s same clean =
      Option-keeps (Ends s0) (Tree.node l t) _ _ (λ e. from_links-Ends ls paths s same clean)
        (λ n e.
          after-Ends s0 (find n s) _ (found_at n l s e same clean)
            (λ found s1. from_links-Ends ls (Sets.add (Sets.to_list found) paths) s1))

  from_parent-Ends :
      (suffix : Str) (a : Option NodeAccess) (paths : IdSet FilePath) (s : PathState)
      → MayBeFromTree t a
      → SameMembers s0 s
      → IsClean s
      → Ends s0 (from_parent find suffix a paths s)
  unfolding from_parent
  from_parent-Ends suffix none paths s h same clean = (same, clean)
  from_parent-Ends suffix (some (access q none links)) paths s h same clean = (same, clean)
  from_parent-Ends suffix (some (access q (some n) links)) paths s h same clean =
      after-Ends s0 (find n s) _ (found_at n (h n refl).0 s (h n refl).1 same clean)
        (λ found s1 same1 clean1. (same1, clean1))

  -- A lookup that fails does not lack fuel.
  lookup-Ends :
      (x : Result (Option NodeAccess)) (s : PathState)
      (f : Option NodeAccess → Act PathState (IdSet FilePath))
      → Found t ancestors_only x
      → SameMembers s0 s
      → IsClean s
      → ((a : Option NodeAccess) → MayBeFromTree t a → Ends s0 (f a s))
      → Ends s0 (after (x, s) f)
  lookup-Ends (ok none) s f h same clean g = g none tt
  lookup-Ends (ok (some a)) s f h same clean g = g (some a) h.0
  lookup-Ends (err e) s f h same clean g = h

  from_parents-Ends :
      (ps : List FilePath) (suffix : Str) (paths : IdSet FilePath) (s : PathState)
      → SameMembers s0 s
      → IsClean s
      → Ends s0 (from_parents t find ps suffix paths s)
  unfolding from_parents
  from_parents-Ends [] suffix paths s same clean = (same, clean)
  from_parents-Ends (p ∷ ps) suffix paths s same clean =
      if-keeps (Ends s0) (str_eq p root) _ _ (λ e. (same, clean))
        (λ e.
          lookup-Ends (node_access t p ancestors_only) s _ (node_access-Found t p ancestors_only)
            same clean
            (λ a h.
              after-Ends s0 (from_parent find suffix a paths s) _
                (from_parent-Ends suffix a paths s h same clean)
                (λ paths' s1. from_parents-Ends ps (join_path (basename p) suffix) paths' s1)))

  pub from_paths-Ends :
      (ps : List FilePath) (paths : IdSet FilePath) (s : PathState)
      → SameMembers s0 s
      → IsClean s
      → Ends s0 (from_paths t find ps paths s)
  unfolding from_paths
  from_paths-Ends [] paths s same clean = (same, clean)
  from_paths-Ends (p ∷ ps) paths s same clean =
      after-Ends s0
        (from_parents t find (sort (λ a b. str_lt b a) (constituent_paths p)) (basename p) paths s)
        _
        (from_parents-Ends (sort (λ a b. str_lt b a) (constituent_paths p)) (basename p) paths s
          same clean)
        (λ paths' s1. from_paths-Ends ps paths' s1)

-- `_pathsToNode` leaves the nodes that are observed as they were.
forget_observed :
    (n : FileNode) (s s' : PathState)
    → Sets.has_member s.observed n.real_path ≡ false
    → SameMembers (observe n s) s'
    → SameMembers s (forget n s')
forget_observed n s s' new same k =
    ground (arith, removed, same k, member-add n.real_path k s.observed, str_eq_iff n.real_path k)
  where
    removed :
        Sets.has_member (Sets.remove (n.real_path ∷ []) s'.observed) k
        ≡ (not (str_eq n.real_path k) && Sets.has_member s'.observed k)
    removed = has_member-remove (n.real_path ∷ []) s'.observed k ∙ (unfold elem in ground arith)

pub forget-Ends :
    (n : FileNode) (s : PathState) (x : Result (IdSet FilePath) × PathState)
    → Sets.has_member s.observed n.real_path ≡ false
    → Ends (observe n s) x
    → Ends s (after x (λ paths s2. (ok paths, forget n s2)))
forget-Ends n s (ok a, s2) new h = (forget_observed n s s2 new h.0, h.1)
forget-Ends n s (err e, s2) new h = h
