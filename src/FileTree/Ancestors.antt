-- ===== src/FileTree/Ancestors.antt =====
-- The resolution of the links of a path's ancestors in pkg/filetree/filetree.go, over a resolver of the links at
-- a node.

use stereoscope.Errors.{Result, ok, err, ◌>>=◌, IsLinkFailure}
use stereoscope.File.CountSet.{PathCountSet, count_of}
use stereoscope.File.Paths.{FilePath, normalize}
use stereoscope.FileTree.Nodes.{
  FileNode, is_link, NodeAccess, access, file_node, has_file_node, with_links,
}
use stereoscope.FileTree.Resolve.{
  plain, Resolver, keep_set, real_path_or, has_reference, is_last, walk_parts, ancestor_links,
  or_new_set,
}
use stereoscope.Tree
use stereoscope.Tree.{Tree, NodeId}
use stereoscope.Prelude.{
  List, [], ◌∷◌, ◌++◌, Option, none, some, ◌≡◌, refl, ◌∙◌, byte_string_eq, Str, str_eq, if-keeps,
  Option-keeps, not, ◌&&◌,
}
use stereoscope.Go.Strings.{split, slash}

module _ (t : Tree FileNode) where
  -- An access, not nil, whose node is in the tree if it has one.
  abbrev pub FromTree : Option NodeAccess → Type 0
  FromTree none = ⊥
  FromTree (some a) =
      (n : FileNode) → file_node a ≡ some n → (k : NodeId) × (Tree.node k t ≡ some n)

  abbrev pub MayBeFromTree : Option NodeAccess → Type 0
  MayBeFromTree none = Unit
  MayBeFromTree (some a) = FromTree (some a)

  pub FromTree-access : (a : Option NodeAccess) → FromTree a → MayBeFromTree a
  FromTree-access none h = absurd h
  FromTree-access (some a) h = h

  -- Two sets count every path alike.
  abbrev pub SameCounts : PathCountSet → PathCountSet → Type 0
  SameCounts s s' = (p : FilePath) → count_of s' p ≡ count_of s p

  -- What a resolution from a set returns.
  abbrev pub Resolved : PathCountSet → Result (Option NodeAccess × PathCountSet) → Type 0
  Resolved s (ok (a, s')) = FromTree a × SameCounts s s'
  Resolved s (err e) = IsLinkFailure e

  pub plain-FromTree : (p : FilePath) → FromTree (some (plain t p))
  unfolding plain
  plain-FromTree p n e = (normalize p, e)

  pub with_links-FromTree :
      (l : List NodeAccess) (a : NodeAccess) → FromTree (some a) → FromTree (some (with_links l a))
  unfolding with_links
  with_links-FromTree l (access p n links) h = h

  abbrev pub ResolvedParts :
      Option PathCountSet → Result (Option NodeAccess × Option PathCountSet) → Type 0
  ResolvedParts s (ok (a, s')) = FromTree a × SameCounts (or_new_set s) (or_new_set s')
  ResolvedParts s (err e) = IsLinkFailure e

  pub bind-Resolved :
      (set : Option PathCountSet) (x : Result (Option NodeAccess × PathCountSet))
      (f : Option NodeAccess × PathCountSet → Result (Option NodeAccess × Option PathCountSet))
      → Resolved (or_new_set set) x
      → ((a : Option NodeAccess) (s' : PathCountSet)
          → FromTree a
          → SameCounts (or_new_set set) s'
          → ResolvedParts set (f (a, s')))
      → ResolvedParts set (x >>= f)
  bind-Resolved set (ok (a, s')) f h g = g a s' h.0 h.1
  bind-Resolved set (err e) f h g = h

  module _ (resolve : Resolver)
      (sound : (a : NodeAccess) (set : Option PathCountSet)
        → FromTree (some a)
        → Resolved (or_new_set set) (resolve a set)) where
    keep_set-SameCounts :
        (set : Option PathCountSet) (s' : PathCountSet)
        → SameCounts (or_new_set set) s'
        → SameCounts (or_new_set set) (or_new_set (keep_set set s'))
    unfolding keep_set
    keep_set-SameCounts none s' h = λ p. refl
    keep_set-SameCounts (some s) s' h = h

    from_parts :
        (set set' : Option PathCountSet) (x : Result (Option NodeAccess × Option PathCountSet))
        → SameCounts (or_new_set set) (or_new_set set')
        → ResolvedParts set' x
        → ResolvedParts set x
    from_parts set set' (ok (a, s)) same h = (h.0, λ p. h.1 p ∙ same p)
    from_parts set set' (err e) same h = h

    walk_parts-Resolved :
        (parts : List Str) (path : Str) (current : Option NodeAccess) (set : Option PathCountSet)
        → FromTree current
        → ResolvedParts set (walk_parts t resolve parts path current set)
    unfolding walk_parts
    walk_parts-Resolved [] path current set h = (h, λ p. refl)
    walk_parts-Resolved (part ∷ rest) path current set h =
        if-keeps (ResolvedParts set) (str_eq part []) _ _
          (λ e. walk_parts-Resolved rest path current set h)
          (λ e.
            Option-keeps (ResolvedParts set) (file_node here) _ _ (λ e'. (from_here, λ p. refl))
              (λ n e'.
                if-keeps (ResolvedParts set) (has_reference n && not (is_last rest) && is_link n) _
                  _
                  (λ e''.
                    bind-Resolved set (resolve here set) _ (sound here set from_here)
                      (λ a s' ha same.
                        from_parts set (keep_set set s') _ (keep_set-SameCounts set s' same) (
                          walk_parts-Resolved rest (real_path_or n.real_path a) a (keep_set set s')
                            ha)))
                  (λ e''.
                    walk_parts-Resolved rest (path ++ (slash ∷ part)) (some here) set from_here)))
      where
        here : NodeAccess
        here = plain t (path ++ (slash ∷ part))

        from_here : FromTree (some here)
        from_here = plain-FromTree (path ++ (slash ∷ part))

    pub ancestor_links-Resolved :
        (p : FilePath) (set : Option PathCountSet)
        → ResolvedParts set (ancestor_links t resolve p set)
    unfolding ancestor_links
    ancestor_links-Resolved p set =
        if-keeps (ResolvedParts set) (has_file_node (some (plain t p))) _ _
          (λ e. (plain-FromTree p, λ q. refl))
          (λ e. walk_parts-Resolved (split p slash) [] (some (plain t p)) set (plain-FromTree p))
