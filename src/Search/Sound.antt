-- ===== src/Search/Sound.antt =====
-- What the searches of pkg/filetree/search.go return for entries of the index.
use mathlib.Core.Path.{subst}
use stereoscope.Errors.{Result, ok, err, ◌>>=◌, IsLinkFailure}
use stereoscope.File.Paths.{FilePath}
use stereoscope.File.Refs.{Reference, Resolution, references, resolution_less}
use stereoscope.FileTree.Found.{IsFile, file_access-IsFile}
use stereoscope.FileTree.Keyed.{IsKeyed}
use stereoscope.FileTree.Lookup.{file, file_access}
use stereoscope.FileTree.Nodes.{
  FileNode, NodeAccess, access, LinkResolutionOption, follow_basename_links,
  new_link_resolution_strategy,
}
use stereoscope.Go.Maps.{get}
use stereoscope.Go.Sort.{sort, All-sort}
use stereoscope.Index.{FileIndex, IndexEntry}
use stereoscope.Index.Answers.{lookups-IsAnswer}
use stereoscope.Index.Queries.{any_of}
use stereoscope.Index.Tracks.{IsIndex, has_mime}
use stereoscope.Search.{
  expand, refer_to, referring, references_at, references_in_tree, mime_entries, search_by_mime_type,
}
use stereoscope.Search.Context.{SearchContext, ask}
use stereoscope.Search.Paths.{all_paths_to_node}
use stereoscope.Search.Terminates.{all_paths_to_node-ends}
use stereoscope.Prelude.{
  ℕ, List, [], ◌∷◌, ◌++◌, Option, none, some, Bool, true, false, ◌==◌, ◌||◌, Str, nat_eq,
  byte_string_eq, ◌≡◌, refl, sym, inl, inr, arith, All, All-append, if-keeps,
}

-- A list whose elements all have a property, or a failure of links.
abbrev pub Listed : {A : Type 0} → (A → Type 0) → Result (List A) → Type 0
Listed P (ok l) = All P l
Listed P (err e) = IsLinkFailure e

-- A result, or a failure of links.
abbrev Ended : {A : Type 0} → Result A → Type 0
Ended (ok a) = Unit
Ended (err e) = IsLinkFailure e

bind-Listed :
    {A B : Type 0} (P : B → Type 0) (x : Result A) (f : A → Result (List B))
    → Ended x
    → ((a : A) → x ≡ ok a → Listed P (f a))
    → Listed P (x >>= f)
bind-Listed P (ok a) f h g = g a refl
bind-Listed P (err e) f h g = h

joined-Listed :
    {A : Type 0} (P : A → Type 0) (x y : Result (List A))
    → Listed P x
    → Listed P y
    → Listed P (x >>= λ l. y >>= λ more. ok (l ++ more))
joined-Listed P (ok l) (ok more) h k = All-append P l more h k
joined-Listed P (ok l) (err e) h k = k
joined-Listed P (err e) y h k = h

bind-Ended :
    {A B : Type 0} (x : Result A) (f : A → Result B)
    → Ended x
    → ((a : A) → Ended (f a))
    → Ended (x >>= f)
bind-Ended (ok a) f h g = g a
bind-Ended (err e) f h g = h

module _ {A : Type 0} (less : A → A → Bool) (P : A → Type 0) where
  sorted-Listed : (x : Result (List A)) → Listed P x → Listed P (x >>= λ l. ok (sort less l))
  sorted-Listed (ok l) h = All-sort less P l h
  sorted-Listed (err e) h = h

-- One of the references has the ID.
abbrev pub refers : ℕ → List Reference → Bool
refers id [] = false
refers id (r ∷ rs) = (r.id == id) || refers id rs

-- A resolution refers to an entry with a property.
abbrev pub RefersTo : (IndexEntry → Type 0) → Resolution → Type 0
RefersTo P r = (entry : IndexEntry) × P entry × (refers entry.reference.id (references r) ≡ true)

-- The index has the entry, with one of the MIME types.
abbrev pub IsOfTypes : FileIndex → List Str → IndexEntry → Type 0
IsOfTypes c types e = (get e.reference.id c.index ≡ some e) × (any_of has_mime types e ≡ true)

refer_to-All :
    (Q : Resolution → Type 0) (id : ℕ) (r : Resolution) (as_ : List Reference)
    → (refers id as_ ≡ true → Q r)
    → All Q (refer_to id r as_)
unfolding refer_to
refer_to-All Q id r [] h = tt
refer_to-All Q id r (a ∷ as_) h =
    if-keeps (All Q) (a.id == id) _ _
      (λ e. (h (ground arith), refer_to-All Q id r as_ (λ e'. h (ground arith))))
      (λ e. refer_to-All Q id r as_ (λ e'. h (ground arith)))

referring-All :
    (P : IndexEntry → Type 0) (entry : IndexEntry) (rs : List Resolution)
    → P entry
    → All (RefersTo P) (referring entry.reference.id rs)
unfolding referring
referring-All P entry [] p = tt
referring-All P entry (r ∷ rs) p =
    All-append _ (refer_to entry.reference.id r (references r)) _
      (refer_to-All (RefersTo P) entry.reference.id r (references r) (λ e. (entry, p, e)))
      (referring-All P entry rs p)

module _ (sc : SearchContext) (keyed : IsKeyed sc.tree) where
  file_access-Ended :
      (p : FilePath) (options : List LinkResolutionOption) → Ended (file_access sc.tree p options)
  file_access-Ended p options =
      go (file_access sc.tree p options) (file_access-IsFile sc.tree p options)
    where
      go :
          (x : Result (Option NodeAccess))
          → IsFile sc.tree (new_link_resolution_strategy options) x
          → Ended x
      go (ok a) h = tt
      go (err e) h = h

  file-Ended : (p : FilePath) (options : List LinkResolutionOption) → Ended (file sc.tree p options)
  unfolding file
  file-Ended p options =
      bind-Ended (file_access sc.tree p options) _ (file_access-Ended p options) (λ a. tt)

  all_paths_to_node-Ended :
      (n : FileNode) → Ended (all_paths_to_node sc.tree sc.link_backward_refs n)
  all_paths_to_node-Ended n = elim (all_paths_to_node-ends sc.tree sc.link_backward_refs keyed n) [
    | inl (paths, e) ↦ subst Ended (sym e) tt
    | inr (inl e) ↦ subst Ended (sym e) (inl refl)
    | inr (inr e) ↦ subst Ended (sym e) (inr refl)
  ]

  expand-Ended : (ps : List FilePath) → Ended (expand sc.tree ps)
  unfolding expand
  expand-Ended [] = tt
  expand-Ended (p ∷ ps) =
      bind-Ended (file sc.tree p (follow_basename_links ∷ [])) _
        (file-Ended p (follow_basename_links ∷ []))
        (λ r. bind-Ended (expand sc.tree ps) _ (expand-Ended ps) (λ more. tt))

  module _ (P : IndexEntry → Type 0) where
    references_at-Listed :
        (entry : IndexEntry) (a : Option NodeAccess)
        → P entry
        → Listed (RefersTo P) (references_at sc entry a)
    unfolding references_at
    references_at-Listed entry none p = tt
    references_at-Listed entry (some (access q none links)) p = tt
    references_at-Listed entry (some (access q (some n) links)) p =
        bind-Listed _ (all_paths_to_node sc.tree sc.link_backward_refs n) _
          (all_paths_to_node-Ended n)
          (λ paths e.
            bind-Listed _ (expand sc.tree paths) _ (expand-Ended paths)
              (λ rs e'. referring-All P entry rs p))

    references_in_tree-Listed :
        (entries : List IndexEntry)
        → All P entries
        → Listed (RefersTo P) (references_in_tree sc entries)
    unfolding references_in_tree
    references_in_tree-Listed [] h = tt
    references_in_tree-Listed (entry ∷ entries) h =
        bind-Listed _ (file_access sc.tree entry.reference.real_path (follow_basename_links ∷ [])) _
          (file_access-Ended entry.reference.real_path (follow_basename_links ∷ []))
          (λ a e.
            joined-Listed _ (references_at sc entry a) (references_in_tree sc entries)
              (references_at-Listed entry a h.0) (references_in_tree-Listed entries h.1))

  module _ (c : FileIndex) (own : sc.index ≡ some c) (v : IsIndex c) where
    of_first :
        (m : Str) (ms : List Str) (es : List IndexEntry)
        → All (λ e. get e.reference.id c.index ≡ some e) es
        → All (λ e. any_of has_mime (m ∷ []) e ≡ true) es
        → All (IsOfTypes c (m ∷ ms)) es
    of_first m ms [] h k = tt
    of_first m ms (e ∷ es) h k = ((h.0, ground (arith, k.0)), of_first m ms es h.1 k.1)

    of_later :
        (m : Str) (ms : List Str) (es : List IndexEntry)
        → All (IsOfTypes c ms) es
        → All (IsOfTypes c (m ∷ ms)) es
    of_later m ms [] h = tt
    of_later m ms (e ∷ es) h = ((h.0.0, ground (arith, h.0.1)), of_later m ms es h.1)

    mime_entries-ok :
        (types : List Str)
        → (es : List IndexEntry) × (mime_entries sc types ≡ ok es) × All (IsOfTypes c types) es
    unfolding mime_entries ask
    mime_entries-ok [] = ([], refl, tt)
    mime_entries-ok (m ∷ ms) =
        let (es, here, answer) = (lookups-IsAnswer c v [] (m ∷ []) []).1 in
        let (more, rest, all) = mime_entries-ok ms in
        (
          es ++ more,
          rw (own, here, rest) refl,
          All-append _ es more (of_first m ms es answer.stored answer.asked)
              (of_later m ms more all),
        )

    -- Over a tree with every node under its own path, and an index that is in order, each result of
    -- `SearchByMIMEType` refers to an entry that the index has, with one of the MIME types that were asked
    -- for; the search fails with a link cycle or at the link depth only.
    pub search_by_mime_type-Listed :
        (types : List Str) → Listed (RefersTo (IsOfTypes c types)) (search_by_mime_type sc types)
    unfolding search_by_mime_type
    search_by_mime_type-Listed types =
        let (es, found, all) = mime_entries-ok types in
        subst
          (λ x. Listed (RefersTo (IsOfTypes c types)) (
            x >>= λ entries.
            references_in_tree sc entries >>= λ refs. ok (sort resolution_less refs)))
          (sym found)
          (sorted-Listed resolution_less _ (references_in_tree sc es)
            (references_in_tree-Listed (IsOfTypes c types) es all))
