-- ===== src/FileTree/Links.antt =====
-- The resolution of links in pkg/filetree/filetree.go: what it may return, and the set of paths that are being
-- resolved.
use mathlib.Core.Option
use stereoscope.Errors.{Result, ok, err, ◌>>=◌, panics, IsLinkFailure}
use stereoscope.File.CountSet.{
  PathCountSet, add_path, remove_path, contains_path, count_of-add_path, count_of-remove_path,
}
use stereoscope.File.Paths.{FilePath}
use stereoscope.FileTree.Nodes.{
  FileNode, is_link, render_link_destination, NodeAccess, access, file_node, has_file_node,
  with_links,
}
use stereoscope.FileTree.Resolve.{
  ancestor_links, LinkLoop, start_links, or_new_set, finish, seen_path, link_loop, node_links,
}
use stereoscope.Tree.{Tree}
use stereoscope.Prelude.{
  ℕ, zero, suc, List, [], Option, none, some, Bool, true, false, ◌≡◌, ◌≢◌, refl, sym, ap, ◌∙◌,
  byte_string_eq, str_eq, arith, if-keeps, Option-keeps, not, ◌&&◌, inl, inr,
}
use stereoscope.FileTree.Ancestors.{
  FromTree, MayBeFromTree, SameCounts, Resolved, ResolvedParts, with_links-FromTree,
  ancestor_links-Resolved,
}

module _ (t : Tree FileNode) where
  -- A link that leads somewhere.
  abbrev pub leads : FileNode → Bool
  leads n = is_link n && not (str_eq (render_link_destination n) [])

  -- Where dead links are followed, a node that is returned is no link that leads somewhere.
  abbrev pub IsEnd : Bool → Option NodeAccess → Type 0
  IsEnd follow none = follow ≢ true
  IsEnd follow (some a) = (n : FileNode) → follow ≡ true → file_node a ≡ some n → leads n ≡ false

  abbrev pub LoopDone : Bool → PathCountSet → Result (Option NodeAccess × PathCountSet) → Type 0
  LoopDone follow s (ok (a, s')) = MayBeFromTree t a × SameCounts t s s' × IsEnd follow a
  LoopDone follow s (err e) = IsLinkFailure e

  finish-FromTree :
      (follow : Bool) (s : LinkLoop)
      → FromTree t (some s.current)
      → MayBeFromTree t s.last_node
      → MayBeFromTree t (finish follow s)
  unfolding finish
  finish-FromTree follow s h l =
      if-keeps (MayBeFromTree t) (not (has_file_node (some s.current)) && not follow) _ _
        (λ e. last_with s.last_node l) (λ e. with_links-FromTree t s.node_path s.current h)
    where
      last_with :
          (a : Option NodeAccess)
          → MayBeFromTree t a
          → MayBeFromTree t (Option.map (with_links s.node_path) a)
      last_with none h = tt
      last_with (some a) h = with_links-FromTree t s.node_path a h

  with_links-IsEnd :
      (follow : Bool) (l : List NodeAccess) (a : NodeAccess)
      → ((n : FileNode) → file_node a ≡ some n → leads n ≡ false)
      → IsEnd follow (some (with_links l a))
  unfolding with_links
  with_links-IsEnd follow l (access p n links) h m e e' = h m e'

  not_followed : (a : Option NodeAccess) → IsEnd false a
  not_followed none = λ e. cc
  not_followed (some a) = λ n e e'. cc

  finish-IsEnd :
      (follow : Bool) (s : LinkLoop)
      → ((n : FileNode) → file_node s.current ≡ some n → leads n ≡ false)
      → IsEnd follow (finish follow s)
  finish-IsEnd true s h =
      unfold finish in
      if-keeps (IsEnd true) (not (has_file_node (some s.current)) && false) _ _ (λ e. ground arith)
        (λ e. with_links-IsEnd true s.node_path s.current h)
  finish-IsEnd false s h = not_followed (finish false s)

  done_here :
      (follow : Bool) (s : LinkLoop)
      → FromTree t (some s.current)
      → MayBeFromTree t s.last_node
      → ((n : FileNode) → file_node s.current ≡ some n → leads n ≡ false)
      → LoopDone follow s.resolving (ok (finish follow s, s.resolving))
  done_here follow s h l e = (finish-FromTree follow s h l, λ p. refl, finish-IsEnd follow s e)

  -- Counting a path once more and then once less leaves all counts.
  restored :
      (p : FilePath) (s s' : PathCountSet)
      → SameCounts t (add_path p s) s'
      → SameCounts t s (remove_path p s')
  restored p s s' h q = ground (arith, count_of-remove_path p q s', count_of-add_path p q s, h q)

  from_loop :
      (follow : Bool) (s s' : PathCountSet) (x : Result (Option NodeAccess × PathCountSet))
      → SameCounts t s s'
      → LoopDone follow s' x
      → LoopDone follow s x
  from_loop follow s s' (ok (a, s'')) same h = (h.0, λ p. h.1 p ∙ same p, h.2)
  from_loop follow s s' (err e) same h = h

  LoopDone-Resolved :
      (s : PathCountSet) (x : Result (Option NodeAccess × PathCountSet))
      → LoopDone true s x
      → Resolved t s x
  LoopDone-Resolved s (ok (none, s')) h = absurd (h.2 refl)
  LoopDone-Resolved s (ok (some a, s')) h = (h.0, h.1)
  LoopDone-Resolved s (err e) h = h

  -- The end of one round: the links of the next path are resolved, and the loop goes on where they lead.
  bind-LoopDone :
      (follow : Bool) (s : PathCountSet) (set : Option PathCountSet)
      (x : Result (Option NodeAccess × Option PathCountSet))
      (g : NodeAccess → Option PathCountSet → Result (Option NodeAccess × PathCountSet))
      → ResolvedParts t set x
      → ((a : NodeAccess) (s' : Option PathCountSet)
          → FromTree t (some a)
          → SameCounts t (or_new_set set) (or_new_set s')
          → LoopDone follow s (g a s'))
      → LoopDone follow s (x >>= λ r. elim r.0 [ none ↦ err panics | some a ↦ g a r.1 ])
  bind-LoopDone follow s set (ok (none, s')) g h k = absurd h.0
  bind-LoopDone follow s set (ok (some a, s')) g h k = k a s' h.0 h.1
  bind-LoopDone follow s set (err e) g h k = h

  leads_at : Option FileNode → Bool
  leads_at none = false
  leads_at (some n) = leads n

  pub leads_of :
      (x : Option FileNode) (n m : FileNode)
      → x ≡ some n
      → x ≡ some m
      → leads n ≡ false
      → leads m ≡ false
  unfolding leads_at
  leads_of x n m e e' h = ap leads_at (sym e' ∙ e) ∙ h

  link_loop-LoopDone :
      (d : ℕ) (follow : Bool) (s : LinkLoop)
      → FromTree t (some s.current)
      → MayBeFromTree t s.last_node
      → LoopDone follow s.resolving (link_loop t d follow s)
  unfolding link_loop start_links
  link_loop-LoopDone zero follow s h l = inr refl
  link_loop-LoopDone (suc zero) follow s h l = inr refl
  link_loop-LoopDone (suc (suc d)) follow s h l =
      Option-keeps (LoopDone follow s.resolving) (file_node s.current) _ _
        (λ e. done_here follow (record s { node_path = _ }) h l (λ n e'. ground arith))
        (λ n e.
          if-keeps (LoopDone follow s.resolving) (seen_path s n) _ _ (λ e1. inl refl)
            (λ e1.
              if-keeps (LoopDone follow s.resolving) (not (is_link n)) _ _
                (λ e2.
                  done_here follow (record s { node_path = _ }) h l
                    (λ m e'. leads_of (file_node s.current) n m e e' (ground arith)))
                (λ e2.
                  if-keeps (LoopDone follow s.resolving) (str_eq (render_link_destination n) []) _ _
                    (λ e3.
                      done_here follow (record s { node_path = _ }) h l
                        (λ m e'. leads_of (file_node s.current) n m e e' (ground arith)))
                    (λ e3.
                      if-keeps (LoopDone follow s.resolving)
                        (contains_path s.resolving (render_link_destination n)) _ _ (λ e4. inl refl)
                        (λ e4.
                          bind-LoopDone follow s.resolving
                            (some (add_path (render_link_destination n) s.resolving)) _ _
                            (ancestor_links-Resolved t
                              (λ a set. link_loop t (suc d) true (start_links a set))
                              (λ a set ha.
                                LoopDone-Resolved (or_new_set set) _
                                  (link_loop-LoopDone (suc d) true (start_links a set) ha tt))
                              (render_link_destination n)
                              (some (add_path (render_link_destination n) s.resolving)))
                            (λ a s' ha same.
                              from_loop follow s.resolving
                                (remove_path (render_link_destination n) (or_new_set s')) _
                                (restored (render_link_destination n) s.resolving (or_new_set s')
                                  same)
                                (link_loop-LoopDone (suc d) follow _ ha h)))))))

  -- The resolution, to any depth, of the links at an access whose node, if it has one, is in the tree: if it
  -- returns an access, that access keeps this property, and if it returns, the paths that are being resolved are
  -- counted as before. If dead links are followed, the access is not nil and its node is no link with a
  -- destination. It fails with a link cycle or at the link depth
  -- only.
  pub node_links-LoopDone :
      (d : ℕ) (follow : Bool) (a : NodeAccess) (set : Option PathCountSet)
      → FromTree t (some a)
      → LoopDone follow (or_new_set set) (node_links t d follow a set)
  unfolding node_links start_links
  node_links-LoopDone d follow a set h = link_loop-LoopDone d follow (start_links a set) h tt

  pub path_links-ResolvedParts :
      (d : ℕ) (p : FilePath) (set : Option PathCountSet)
      → ResolvedParts t set (ancestor_links t (node_links t d true) p set)
  path_links-ResolvedParts d =
      ancestor_links-Resolved t (node_links t d true)
        (λ a set h. LoopDone-Resolved (or_new_set set) _ (node_links-LoopDone d true a set h))
