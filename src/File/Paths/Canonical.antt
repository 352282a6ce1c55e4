-- ===== src/File/Paths/Canonical.antt =====
-- Canonical paths: a slash, and elements that are not empty, hold no slash and are neither "." nor "..";
-- against `Clean` and `Normalize` of pkg/file/path.go.
use mathlib.Core.List.{reverse, reverse-reverse, reverse-append}
use stereoscope.File.Paths.{FilePath, root, normalize, trim_blanks, clean_or_root, is_absolute_path}
use stereoscope.Go.Paths.{dot, dotdot, back, push_element, push_elements, render, is_abs, clean}
use stereoscope.Go.Strings.{
  slash, split, join, trim_left, trim_right, byte_in, count_byte, Lacks, split-join, has_prefix,
  split_parts-Lacks,
}
use stereoscope.Prelude.{
  ℕ, List, [], ◌∷◌, ◌++◌, append-nil, append_assoc, true, false, ◌≡◌, ◌≢◌, refl, sym, ap, ◌∙◌, Str,
  str_eq, str_eq_iff, arith, All, All-append, if◌then◌else◌, Bool-cases, inl, inr, ◌||◌,
}

abbrev pub IsElement : Str → Type 0
IsElement e = (e ≢ []) × (e ≢ dot) × (e ≢ dotdot) × Lacks slash e

abbrev pub path_of : List Str → FilePath
path_of es = slash ∷ join es slash

-- A path from the root, of elements alone.
pub record IsCanonical (p : FilePath) : Type 0 where
  pub elements : List Str
  pub plain : All IsElement elements
  pub spells : p ≡ path_of elements

pub All-reverse {ℓ} : {A : Type ℓ} (P : A → Type 0) (l : List A) → All P l → All P (reverse l)
All-reverse P [] h = tt
All-reverse P (x ∷ l) h =
    rw (reverse-append (x ∷ []) l) (All-append P (reverse l) _ (All-reverse P l h.1) (h.0, tt))

back-plain : (stack : List Str) → All IsElement stack → All IsElement (back true stack)
unfolding back
back-plain [] h = tt
back-plain (x ∷ stack) h = elim (Bool-cases (str_eq x dotdot)) [
  | inl up ↦ absurd (h.0.2 ((str_eq_iff x dotdot).0 up))
  | inr other ↦ rw other h.1
]

element_of :
    (e : Str)
    → (str_eq e [] || str_eq e dot) ≡ false
    → str_eq e dotdot ≡ false
    → Lacks slash e
    → IsElement e
element_of e h up l = (
  ground (arith, str_eq_iff e []),
  ground (arith, str_eq_iff e dot),
  ground (arith, str_eq_iff e dotdot),
  l,
)

push_element-plain :
    (stack : List Str) (e : Str)
    → All IsElement stack
    → Lacks slash e
    → All IsElement (push_element true stack e)
unfolding push_element
push_element-plain stack e h l = elim (Bool-cases (str_eq e [] || str_eq e dot)) [
  | inl skip ↦ rw skip h
  | inr taken ↦ elim (Bool-cases (str_eq e dotdot)) [
    | inl up ↦ rw (taken, up) (back-plain stack h)
    | inr down ↦ rw (taken, down) (element_of e taken down l, h)
  ]
]

push_element_of : (stack : List Str) (e : Str) → IsElement e → push_element true stack e ≡ e ∷ stack
unfolding push_element
push_element_of stack e h =
    ground (arith, h.0, h.1, h.2, str_eq_iff e [], str_eq_iff e dot, str_eq_iff e dotdot)

push_elements-plain :
    (stack es : List Str)
    → All IsElement stack
    → All (Lacks slash) es
    → All IsElement (push_elements true stack es)
unfolding push_elements
push_elements-plain stack [] h l = h
push_elements-plain stack (e ∷ es) h l =
    push_elements-plain (push_element true stack e) es (push_element-plain stack e h l.0) l.1

-- `Clean` of a rooted path is canonical.
pub clean-IsCanonical : (s : Str) → IsCanonical (clean (slash ∷ s))
unfolding clean render is_abs
clean-IsCanonical s = record {
  elements = reverse (push_elements true [] (split (slash ∷ s) slash));
  plain =
      All-reverse IsElement _ (push_elements-plain [] _ tt (split_parts-Lacks (slash ∷ s) slash));
  spells = refl;
}

-- Elements are pushed one on another.
push_plain :
    (stack es : List Str) → All IsElement es → push_elements true stack es ≡ reverse es ++ stack
unfolding push_elements
push_plain stack [] h = refl
push_plain stack (e ∷ es) h = rw (push_element_of stack e h.0) (
    push_plain (e ∷ stack) es h.1
    ∙ sym (
        ap (λ l. l ++ stack) (reverse-append (e ∷ []) es)
        ∙ append_assoc (reverse es) (e ∷ []) stack))

pub All-map {ℓ} :
    {A : Type ℓ} {P Q : A → Type 0} → ((a : A) → P a → Q a) → (l : List A) → All P l → All Q l
All-map f [] h = tt
All-map f (x ∷ l) h = (f x h.0, All-map f l h.1)

split-path_of :
    (e : Str) (es : List Str)
    → All IsElement (e ∷ es)
    → split (path_of (e ∷ es)) slash ≡ [] ∷ e ∷ es
split-path_of e es h =
    unfold split in
    (ap (λ l. [] ∷ l) (split-join (e ∷ es) slash (cc) (All-map (λ a p. p.3) (e ∷ es) h)))

push_from_root : (es : List Str) → All IsElement es → push_elements true [] ([] ∷ es) ≡ reverse es
push_from_root es h =
    unfold push_elements push_element str_eq in (push_plain [] es h ∙ append-nil (reverse es))

-- `Clean` leaves a canonical path as it is.
pub clean-path_of : (es : List Str) → All IsElement es → clean (path_of es) ≡ path_of es
unfolding clean render is_abs
clean-path_of [] h = unfold push_elements push_element split join str_eq in refl
clean-path_of (e ∷ es) h = ap path_of (
    ap (λ l. reverse (push_elements true [] l)) (split-path_of e es h)
    ∙ ap reverse (push_from_root (e ∷ es) h)
    ∙ reverse-reverse (e ∷ es))

-- No slash stands at the end of the text.
abbrev pub EndsPlain : Str → Type 0
EndsPlain s = (s ≢ []) × (trim_right s root ≡ s)

EndsPlain-cons : (c : ℕ) (s : Str) → EndsPlain s → EndsPlain (c ∷ s)
unfolding trim_right
EndsPlain-cons c [] h = absurd (h.0 refl)
EndsPlain-cons c (d ∷ s) h = (cc, ground arith)

pub EndsPlain-append : (s t : Str) → EndsPlain t → EndsPlain (s ++ t)
EndsPlain-append [] t h = h
EndsPlain-append (c ∷ s) t h = EndsPlain-cons c (s ++ t) (EndsPlain-append s t h)

EndsPlain-of : (s : Str) → s ≢ [] → Lacks slash s → EndsPlain s
unfolding trim_right byte_in
EndsPlain-of [] ne h = absurd (ne refl)
EndsPlain-of (c ∷ []) ne h = (ne, ground arith)
EndsPlain-of (c ∷ d ∷ s) ne h = EndsPlain-cons c (d ∷ s) (EndsPlain-of (d ∷ s) (cc) h.1)

pub EndsPlain-join :
    (e : Str) (es : List Str) → All IsElement (e ∷ es) → EndsPlain (join (e ∷ es) slash)
unfolding join
EndsPlain-join e [] h = EndsPlain-of e h.0.0 h.0.3
EndsPlain-join e (f ∷ es) h =
    EndsPlain-append e (slash ∷ join (f ∷ es) slash)
      (EndsPlain-cons slash (join (f ∷ es) slash) (EndsPlain-join f es h.1))

pub trim_blanks_rooted : (s : Str) → trim_blanks (slash ∷ s) ≡ slash ∷ s
unfolding trim_blanks trim_left byte_in
trim_blanks_rooted s = ground arith

-- `Normalize` leaves a canonical path as it is.
pub normalize-path_of : (es : List Str) → All IsElement es → normalize (path_of es) ≡ path_of es
unfolding normalize clean_or_root
normalize-path_of [] h = unfold trim_blanks trim_right trim_left byte_in join count_byte in refl
normalize-path_of (e ∷ es) h =
    rw (trim_blanks_rooted, (EndsPlain-cons slash _ (EndsPlain-join e es h)).1)
      (clean-path_of (e ∷ es) h)

pub normalize_of_IsCanonical : (p : FilePath) → IsCanonical p → normalize p ≡ p
normalize_of_IsCanonical p h =
    ap normalize h.spells ∙ normalize-path_of h.elements h.plain ∙ sym h.spells

rooted_or_trimmed : (s : Str) → IsCanonical (clean_or_root (trim_right (slash ∷ s) root))
unfolding trim_right clean_or_root byte_in
rooted_or_trimmed s = go (trim_right s root)
  where
    go :
        (r : Str)
        → IsCanonical (
            clean_or_root
              (elim r [ [] ↦ if byte_in root slash then [] else root | d ∷ r' ↦ slash ∷ d ∷ r' ]))
    go [] = record { elements = []; plain = tt; spells = unfold join in refl }
    go (d ∷ r) = clean-IsCanonical (d ∷ r)

-- An absolute path is canonical once it is normalized: no element of it is empty, "." or "..".
pub normalize-IsCanonical : (p : FilePath) → is_absolute_path p ≡ true → IsCanonical (normalize p)
unfolding is_absolute_path has_prefix
normalize-IsCanonical [] h = cc
normalize-IsCanonical (c ∷ s) h =
    let e : c ≡ slash = ground arith in
    rw e (unfold normalize in rw trim_blanks_rooted (rooted_or_trimmed s))

-- `Normalize` does nothing more to an absolute path that has been normalized.
pub normalize-normalize :
    (p : FilePath) → is_absolute_path p ≡ true → normalize (normalize p) ≡ normalize p
normalize-normalize p h = normalize_of_IsCanonical (normalize p) (normalize-IsCanonical p h)
