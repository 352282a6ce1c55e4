-- ===== src/Image/Registry/Chosen.antt =====
-- `RegistryOptions.Authenticator` of pkg/image/registry_options.go: the credentials that it chooses.
use stereoscope.Go.Sort.{insert, sort}
use stereoscope.Image.Registry.{
  RegistryCredentials, AuthKinds, has_authority, can_be_used, authenticator, Selection, usable_from,
  more_specific, select_most_specific, first_authenticator, authenticator_for,
}
use stereoscope.Prelude.{
  ℕ, suc, List, [], ◌∷◌, All, none, some, Option-cases, Bool, true, false, not, Str, if-keeps,
  Bool-cases, ◌≡◌, ◌≢◌, ◌∙◌, ◌⊎◌, inl, inr, arith,
}

-- Some member of a list has the property.
abbrev pub Any {ℓ} : {A : Type ℓ} → (A → Type 0) → List A → Type 0
Any P [] = ⊥
Any P (x ∷ xs) = P x ⊎ Any P xs

module _ {ℓ} {A : Type ℓ} (less : A → A → Bool) (P : A → Type 0) where
  Any-insert : (a : A) (xs : List A) → Any P (a ∷ xs) → Any P (insert less a xs)
  unfolding insert
  Any-insert a [] h = h
  Any-insert a (x ∷ xs) h =
      if-keeps (Any P) (less x a) _ _ (λ e. moved h (Any-insert a xs)) (λ e. h)
    where
      moved :
          P a ⊎ (P x ⊎ Any P xs)
          → (P a ⊎ Any P xs → Any P (insert less a xs))
          → P x ⊎ Any P (insert less a xs)
      moved (inl pa) f = inr (f (inl pa))
      moved (inr (inl px)) f = inl px
      moved (inr (inr rest)) f = inr (f (inr rest))

  Any-uninsert : (a : A) (xs : List A) → Any P (insert less a xs) → Any P (a ∷ xs)
  unfolding insert
  Any-uninsert a [] h = h
  Any-uninsert a (x ∷ xs) h =
      if-keeps (λ l. Any P l → P a ⊎ (P x ⊎ Any P xs)) (less x a) _ _
        (λ e. moved (Any-uninsert a xs)) (λ e k. k) h
    where
      moved :
          (Any P (insert less a xs) → P a ⊎ Any P xs)
          → P x ⊎ Any P (insert less a xs)
          → P a ⊎ (P x ⊎ Any P xs)
      moved f (inl px) = inr (inl px)
      moved f (inr rest) = elim (f rest) [ inl pa ↦ inl pa | inr later ↦ inr (inr later) ]

  Any-unsort : (xs : List A) → Any P (sort less xs) → Any P xs
  unfolding sort
  Any-unsort [] h = h
  Any-unsort (x ∷ xs) h = elim (Any-uninsert x (sort less xs) h) [
    | inl px ↦ inl px
    | inr rest ↦ inr (Any-unsort xs rest)
  ]

  Any-sort : (xs : List A) → Any P xs → Any P (sort less xs)
  unfolding sort
  Any-sort [] h = h
  Any-sort (x ∷ xs) (inl px) = Any-insert x (sort less xs) (inl px)
  Any-sort (x ∷ xs) (inr rest) = Any-insert x (sort less xs) (inr (Any-sort xs rest))

module _ {Auth : Type 0} (kinds : AuthKinds Auth) where
  abbrev IsWild : Selection Auth → Type 0
  IsWild x = has_authority x.0 ≡ false

  -- Behind credentials for any registry there are no others.
  abbrev IsGrouped : List (Selection Auth) → Type 0
  IsGrouped [] = Unit
  IsGrouped (x ∷ xs) = (IsWild x → All IsWild xs) × IsGrouped xs

  specific_first : (x a : Selection Auth) → more_specific x a ≡ true → IsWild x → ⊥
  unfolding more_specific
  specific_first x a h w = ground arith

  IsWild-first : (x a : Selection Auth) → more_specific x a ≡ false → IsWild a → IsWild x
  unfolding more_specific
  IsWild-first x a h w = ground arith

  insert-IsGrouped :
      (a : Selection Auth) (xs : List (Selection Auth))
      → IsGrouped xs
      → IsGrouped (insert more_specific a xs)
  unfolding insert
  insert-IsGrouped a [] h = (λ w. tt, tt)
  insert-IsGrouped a (x ∷ xs) h =
      if-keeps IsGrouped (more_specific x a) _ _
        (λ e. (λ w. absurd (specific_first x a e w), insert-IsGrouped a xs h.1))
        (λ e. (λ w. (IsWild-first x a e w, h.0 (IsWild-first x a e w)), h))

  sort-IsGrouped : (xs : List (Selection Auth)) → IsGrouped (sort more_specific xs)
  unfolding sort
  sort-IsGrouped [] = tt
  sort-IsGrouped (x ∷ xs) = insert-IsGrouped x (sort more_specific xs) (sort-IsGrouped xs)

  -- Credentials for this registry alone, by which one can log in.
  abbrev IsSpecific : RegistryCredentials Auth → Type 0
  IsSpecific c = (has_authority c ≡ true) × (authenticator kinds c ≢ none)

  abbrev Gives : Auth → RegistryCredentials Auth → Type 0
  Gives a c = (has_authority c ≡ true) × (authenticator kinds c ≡ some a)

  no_specific : (xs : List (Selection Auth)) → All IsWild xs → Any (λ x. IsSpecific x.0) xs → ⊥
  no_specific [] w h = h
  no_specific (x ∷ xs) w (inl s) = cc (w.0, s.0)
  no_specific (x ∷ xs) w (inr rest) = no_specific xs w.1 rest

  first_specific :
      (xs : List (Selection Auth)) (a : Auth)
      → IsGrouped xs
      → first_authenticator kinds xs ≡ some a
      → Any (λ x. IsSpecific x.0) xs
      → Any (λ x. Gives a x.0) xs
  unfolding first_authenticator
  first_specific [] a g e h = h
  first_specific ((c, i) ∷ xs) a g e h = elim (Option-cases (authenticator kinds c)) [
    | inl nothing ↦
        inr (first_specific xs a g.1 (rw (nothing, first_authenticator) at e) (later nothing h))
    | inr (b, something) ↦
        inl (specific_here, something ∙ (rw (something, first_authenticator) at e))
  ]
    where
      later :
          authenticator kinds c ≡ none
          → Any (λ x. IsSpecific x.0) ((c, i) ∷ xs)
          → Any (λ x. IsSpecific x.0) xs
      later nothing (inl s) = absurd (s.1 nothing)
      later nothing (inr rest) = rest

      specific_here : has_authority c ≡ true
      specific_here = elim (Bool-cases (has_authority c)) [
        | inl yes_ ↦ yes_
        | inr wild ↦ absurd (no_specific ((c, i) ∷ xs) (wild, g.0 wild) h)
      ]

  first_none :
      (xs : List (Selection Auth))
      → first_authenticator kinds xs ≡ none
      → Any (λ x. authenticator kinds x.0 ≢ none) xs
      → ⊥
  unfolding first_authenticator
  first_none [] e h = h
  first_none ((c, i) ∷ xs) e (inl s) = elim (Option-cases (authenticator kinds c)) [
    | inl nothing ↦ s nothing
    | inr (b, something) ↦ cc (rw (something, first_authenticator) at e)
  ]
  first_none ((c, i) ∷ xs) e (inr rest) = elim (Option-cases (authenticator kinds c)) [
    | inl nothing ↦ first_none xs (rw (nothing, first_authenticator) at e) rest
    | inr (b, something) ↦ cc (rw (something, first_authenticator) at e)
  ]

  module _ (P : RegistryCredentials Auth → Type 0) (registry : Str) where
    -- The selection holds the credentials that can be used, and no others.
    Any-usable :
        (idx : ℕ) (cs : List (RegistryCredentials Auth))
        → Any (λ c. (can_be_used c registry ≡ true) × P c) cs
        → Any (λ (x : Selection Auth). P x.0) (usable_from registry idx cs)
    unfolding usable_from
    Any-usable idx [] h = h
    Any-usable idx (c ∷ cs) (inl (can, p)) = rw can (inl p)
    Any-usable idx (c ∷ cs) (inr rest) =
        if-keeps (Any (λ (x : Selection Auth). P x.0)) (not (can_be_used c registry)) _ _
          (λ e. Any-usable (suc idx) cs rest) (λ e. inr (Any-usable (suc idx) cs rest))

    usable-Any :
        (idx : ℕ) (cs : List (RegistryCredentials Auth))
        → Any (λ (x : Selection Auth). P x.0) (usable_from registry idx cs)
        → Any (λ c. (can_be_used c registry ≡ true) × P c) cs
    unfolding usable_from
    usable-Any idx [] h = h
    usable-Any idx (c ∷ cs) h =
        if-keeps
          (λ l.
            Any (λ (x : Selection Auth). P x.0) l
            → ((can_be_used c registry ≡ true) × P c)
              ⊎ Any (λ d. (can_be_used d registry ≡ true) × P d) cs)
          (not (can_be_used c registry)) _ _ (λ e rest. inr (usable-Any (suc idx) cs rest))
          (λ e. here e (usable-Any (suc idx) cs)) h
      where
        here :
            not (can_be_used c registry) ≡ false
            → (Any (λ (x : Selection Auth). P x.0) (usable_from registry (suc idx) cs)
                → Any (λ d. (can_be_used d registry ≡ true) × P d) cs)
            → P c ⊎ Any (λ (x : Selection Auth). P x.0) (usable_from registry (suc idx) cs)
            → ((can_be_used c registry ≡ true) × P c)
              ⊎ Any (λ d. (can_be_used d registry ≡ true) × P d) cs
        here e later (inl p) = inl (ground arith, p)
        here e later (inr rest) = inr (later rest)

  -- If some credentials that can be used with the registry give an authenticator, then there is one; and if some
  -- of these name an authority, then it is that of credentials that name an authority and can be used with the
  -- registry.
  pub authenticator_for_lem :
      (cs : List (RegistryCredentials Auth)) (registry : Str)
      → (Any (λ c. (can_be_used c registry ≡ true) × (authenticator kinds c ≢ none)) cs
          → authenticator_for kinds cs registry ≢ none)
        × ((a : Auth)
            → authenticator_for kinds cs registry ≡ some a
            → Any
                (λ c.
                  (can_be_used c registry ≡ true)
                  × ((has_authority c ≡ true) × (authenticator kinds c ≢ none)))
                cs
            → Any
                (λ c.
                  (can_be_used c registry ≡ true)
                  × ((has_authority c ≡ true) × (authenticator kinds c ≡ some a)))
                cs)
  unfolding authenticator_for select_most_specific
  authenticator_for_lem cs registry = (
    λ some_login e. first_none (sort more_specific (usable_from registry 0 cs)) e (
        Any-sort more_specific _ (usable_from registry 0 cs)
          (Any-usable (λ c. authenticator kinds c ≢ none) registry 0 cs some_login)),
    λ a e some_specific. usable-Any (Gives a) registry 0 cs (
        Any-unsort more_specific _ (usable_from registry 0 cs) (
          first_specific (sort more_specific (usable_from registry 0 cs)) a
            (sort-IsGrouped (usable_from registry 0 cs)) e
            (Any-sort more_specific _ (usable_from registry 0 cs)
              (Any-usable IsSpecific registry 0 cs some_specific)))),
  )
