-- ===== src/File/Ancestors.antt =====
-- The ancestors of a canonical path, as `ConstituentPaths` lists them, and the paths that files from a
-- tar archive get.
use mathlib.Core.Path.{subst}
use stereoscope.Go.Paths.{split_path}
use stereoscope.File.Metadata.{Header, new_metadata}
use stereoscope.File.Paths.{FilePath, root, normalize, parent_path, constituent_paths, prefixes}
use stereoscope.File.Paths.Canonical.{
  IsElement, IsCanonical, path_of, clean-IsCanonical, normalize_of_IsCanonical, EndsPlain-join,
  All-map, trim_blanks_rooted, normalize-path_of,
}
use stereoscope.Go.Strings.{
  slash, split, join, trim_left, trim_right, byte_in, split-join, last_index_byte, Lacks,
}
use stereoscope.Prelude.{
  ℕ, zero, suc, ◌<◌, ◌≢◌, ◌⊎◌, inl, inr, length-append, List, [], ◌∷◌, ◌++◌, append_assoc, ◌≡◌,
  refl, sym, ap, ◌∙◌, Str, str_eq_iff, arith, All, append-nil, take, drop, length, none, some,
}

-- A file from a tar archive has a canonical path, whatever name its header has, and `Normalize` leaves it.
pub new_metadata-IsCanonical :
    (h : Header) (mime : Str)
    → IsCanonical (new_metadata h mime).path
      × (normalize (new_metadata h mime).path ≡ (new_metadata h mime).path)
unfolding new_metadata
new_metadata-IsCanonical h mime =
    (clean-IsCanonical h.name, normalize_of_IsCanonical _ (clean-IsCanonical h.name))

-- The paths of the first `idx`, `idx + 1`, … elements, one for each element of the list.
abbrev pub ancestors : List Str → ℕ → List Str → List FilePath
ancestors parts idx [] = []
ancestors parts idx (e ∷ es) = path_of (take idx parts) ∷ ancestors parts (suc idx) es

All-take {ℓ} : {A : Type ℓ} (P : A → Type 0) (n : ℕ) (l : List A) → All P l → All P (take n l)
All-take P zero l h = tt
All-take P (suc n) [] h = tt
All-take P (suc n) (x ∷ l) h = (h.0, All-take P n l h.1)

prefixes-ancestors :
    (parts : List Str) (idx : ℕ) (l : List Str) → prefixes parts idx l ≡ ancestors parts idx l
unfolding prefixes
prefixes-ancestors parts idx [] = refl
prefixes-ancestors parts idx (e ∷ es) =
    ap (λ l. path_of (take idx parts) ∷ l) (prefixes-ancestors parts (suc idx) es)

trim_left_element : (e : Str) (t : Str) → IsElement e → trim_left (slash ∷ (e ++ t)) root ≡ e ++ t
unfolding trim_left byte_in
trim_left_element [] t h = absurd (h.0 refl)
trim_left_element (c ∷ e) t h = ground (arith, h.3)

trim_join :
    (e : Str) (es : List Str)
    → All IsElement (e ∷ es)
    → trim_left (path_of (e ∷ es)) root ≡ join (e ∷ es) slash
unfolding join
trim_join e [] h = rw (← append-nil e) (trim_left_element e [] h.0)
trim_join e (f ∷ es) h = trim_left_element e (slash ∷ join (f ∷ es) slash) h.0

-- `ConstituentPaths` of a canonical path below the root: the root, and then one more element at a time.
pub constituent_paths_lem :
    (e : Str) (es : List Str)
    → All IsElement (e ∷ es)
    → constituent_paths (path_of (e ∷ es)) ≡ ancestors (e ∷ es) 0 (e ∷ es)
unfolding constituent_paths
constituent_paths_lem e es h =
    let parts : split (trim_right (trim_left (path_of (e ∷ es)) root) root) slash ≡ e ∷ es =
      ap (λ s. split (trim_right s root) slash) (trim_join e es h)
      ∙ ap (λ s. split s slash) (EndsPlain-join e es h).1
      ∙ split-join (e ∷ es) slash (cc) (All-map (λ a p. p.3) (e ∷ es) h) in
    ap (λ ps. prefixes ps 0 ps) parts ∙ prefixes-ancestors (e ∷ es) 0 (e ∷ es)

IsCanonical-path_of : (es : List Str) → All IsElement es → IsCanonical (path_of es)
IsCanonical-path_of es h = record { elements = es; plain = h; spells = refl }

ancestors-IsCanonical :
    (parts : List Str) (idx : ℕ) (l : List Str)
    → All IsElement parts
    → All IsCanonical (ancestors parts idx l)
ancestors-IsCanonical parts idx [] h = tt
ancestors-IsCanonical parts idx (e ∷ es) h = (
  IsCanonical-path_of (take idx parts) (All-take IsElement idx parts h),
  ancestors-IsCanonical parts (suc idx) es h,
)

-- The ancestors of a canonical path are canonical.
pub constituent_paths-IsCanonical :
    (p : FilePath) → IsCanonical p → All IsCanonical (constituent_paths p)
constituent_paths-IsCanonical p h =
    subst (λ q. All IsCanonical (constituent_paths q)) (sym h.spells)
      (of_elements h.elements h.plain)
  where
    of_elements :
        (es : List Str) → All IsElement es → All IsCanonical (constituent_paths (path_of es))
    of_elements [] h =
        unfold constituent_paths trim_left trim_right byte_in split join prefixes in
        (IsCanonical-path_of [] tt, tt)
    of_elements (e ∷ es) h = rw constituent_paths_lem (ancestors-IsCanonical (e ∷ es) 0 (e ∷ es) h)

no_slash : (e : Str) → Lacks slash e → last_index_byte e slash ≡ none
unfolding last_index_byte
no_slash [] l = refl
no_slash (c ∷ e) l = ground (arith, no_slash e l.1)

last_slash :
    (a e : Str) → Lacks slash e → last_index_byte (a ++ (slash ∷ e)) slash ≡ some (length a)
unfolding last_index_byte
last_slash [] e l = ground (arith, no_slash e l)
last_slash (c ∷ a) e l = ground (arith, last_slash a e l)

take_through : (a e : Str) → take (suc (length a)) (a ++ (slash ∷ e)) ≡ a ++ (slash ∷ [])
take_through [] e = refl
take_through (c ∷ a) e = ap (◌∷◌ c) (take_through a e)

drop_through : (a e : Str) → drop (suc (length a)) (a ++ (slash ∷ e)) ≡ e
drop_through [] e = refl
drop_through (c ∷ a) e = drop_through a e

split_path_at : (a e : Str) → Lacks slash e → split_path (a ++ (slash ∷ e)) ≡ (a ++ (slash ∷ []), e)
unfolding split_path
split_path_at a e l = ground (arith, last_slash a e l, take_through a e, drop_through a e)

-- What stands before the last slash of a canonical path below the root.
abbrev directory_of : List Str → Str
directory_of [] = []
directory_of (e ∷ es) = path_of (e ∷ es)

join_last : (es : List Str) (e : Str) → path_of (es ++ e ∷ []) ≡ directory_of es ++ (slash ∷ e)
unfolding join
join_last [] e = refl
join_last (f ∷ []) e = refl
join_last (f ∷ g ∷ es) e =
    ap (λ t. slash ∷ (f ++ t)) (join_last (g ∷ es) e)
    ∙ ap (◌∷◌ slash) (sym (append_assoc f (path_of (g ∷ es)) (slash ∷ e)))

trim_right-slash : (s : Str) → trim_right (s ++ (slash ∷ [])) root ≡ trim_right s root
unfolding trim_right byte_in
trim_right-slash [] = ground arith
trim_right-slash (c ∷ s) = ground (arith, trim_right-slash s)

-- A slash at the end makes no difference.
trailing_slash : (s : Str) → normalize ((slash ∷ s) ++ (slash ∷ [])) ≡ normalize (slash ∷ s)
unfolding normalize
trailing_slash s = rw (trim_blanks_rooted, trim_blanks_rooted, trim_right-slash (slash ∷ s))

normalize_directory :
    (es : List Str) → All IsElement es → normalize (directory_of es ++ (slash ∷ [])) ≡ path_of es
unfolding join
normalize_directory [] h = normalize-path_of [] tt
normalize_directory (e ∷ es) h = trailing_slash (join (e ∷ es) slash) ∙ normalize-path_of (e ∷ es) h

-- `ParentPath` of a canonical path below the root drops its last element.
pub parent_path_lem :
    (es : List Str) (e : Str)
    → All IsElement es
    → IsElement e
    → parent_path (path_of (es ++ e ∷ [])) ≡ some (path_of es)
unfolding parent_path
parent_path_lem es e h l =
    rw (join_last es e, split_path_at (directory_of es) e l.3, normalize_directory es h)
      (ground (arith, str_eq_iff (path_of es) root, str_eq_iff e [], l.0))

last_of : (es : List Str) → (es ≡ []) ⊎ ((init : List Str) × (e : Str) × (es ≡ init ++ e ∷ []))
last_of [] = inl refl
last_of (x ∷ es) = elim (last_of es) [
  | inl nothing ↦ inr ([], x, ap (λ l. x ∷ l) nothing)
  | inr (init, e, same) ↦ inr (x ∷ init, e, ap (λ l. x ∷ l) same)
]

split_last :
    (init : List Str) (e : Str) → All IsElement (init ++ e ∷ []) → All IsElement init × IsElement e
split_last [] e h = (tt, h.0)
split_last (x ∷ init) e h = let r = split_last init e h.1 in ((h.0, r.0), r.1)

parent_path-root : parent_path root ≡ none
unfolding parent_path stereoscope.Prelude.str_eq normalize stereoscope.File.Paths.clean_or_root
    trim_right stereoscope.File.Paths.trim_blanks stereoscope.Go.Strings.count_byte split_path
    last_index_byte trim_left
parent_path-root = refl

-- A path with one element more is longer.
longer :
    (init : List Str) (e : Str)
    → IsElement e
    → length (path_of init) < length (path_of (init ++ e ∷ []))
longer init e h =
    subst (λ r. length (path_of init) < length r) (sym (join_last init e)) (go init e h.0)
  where
    go :
        (l : List Str) (x : Str)
        → x ≢ []
        → length (path_of l) < length (directory_of l ++ (slash ∷ x))
    go l [] other = absurd (other refl)
    go [] (c ∷ x) other = unfold join in omega arith
    go (y ∷ l) (c ∷ x) other = omega (arith, length-append (path_of (y ∷ l)) (slash ∷ c ∷ x))

-- The parent of a canonical path is a shorter canonical path.
pub parent_path-shorter :
    (p q : FilePath)
    → IsCanonical p
    → parent_path p ≡ some q
    → IsCanonical q × (length q < length p)
parent_path-shorter p q c h = elim (last_of c.elements) [
  | inl nothing ↦
      let at_root : p ≡ root = c.spells ∙ ap path_of nothing ∙ (unfold join in refl) in
      cc (parent_path-root, at_root, h)
  | inr (init, e, same) ↦
      let (plain, last) = split_last init e (subst (All IsElement) same c.plain) in
      let spelled : p ≡ path_of (init ++ e ∷ []) = c.spells ∙ ap path_of same in
      let parent : some q ≡ some (path_of init) =
        sym h ∙ ap parent_path spelled ∙ parent_path_lem init e plain last in
      let here : path_of init ≡ q = cc parent in
      (
        subst IsCanonical here (IsCanonical-path_of init plain),
        subst (λ r. length r < length p) here
            (subst (λ r. length (path_of init) < length r) (sym spelled) (longer init e last)),
      )
]
