-- ===== src/Go/Sort.antt =====
-- `sort.Sort` and `sort.Slice` by insertion. The sorts that the source calls are not stable: where
-- two elements tie, the order is one of those that Go may choose.
use mathlib.Core.List.{Perm}
use mathlib.Core.List.Perm
use stereoscope.Go.Maps.{elem}
use stereoscope.Prelude.{
  Eq, ◌||◌, List, [], ◌∷◌, ◌≡◌, refl, Bool, false, arith, if◌then◌else◌, Bool-cases, inl, inr, All,
  if-keeps,
}

module _ {ℓ} {A : Type ℓ} (less : A → A → Bool) where
  unfoldable pub insert : A → List A → List A
  insert a [] = a ∷ []
  insert a (x ∷ xs) = if less x a then x ∷ insert a xs else a ∷ x ∷ xs

  unfoldable pub sort : List A → List A
  unfolding insert
  sort [] = []
  sort (x ∷ xs) = insert x (sort xs)

  insert-perm : (a : A) (xs : List A) → Perm (insert a xs) (a ∷ xs)
  unfolding insert
  insert-perm a [] = Perm.refl (a ∷ [])
  insert-perm a (x ∷ xs) = elim (Bool-cases (less x a)) [
    | inl h ↦ rw h (Perm.trans (Perm.cons x (insert-perm a xs)) (Perm.swap a x xs))
    | inr h ↦ rw h (Perm.refl (a ∷ x ∷ xs))
  ]

  -- Sorting only reorders.
  pub sort-perm : (xs : List A) → Perm (sort xs) xs
  unfolding sort
  sort-perm [] = Perm.refl []
  sort-perm (x ∷ xs) = Perm.trans (insert-perm x (sort xs)) (Perm.cons x (sort-perm xs))

  -- No element is less than one that stands before it.
  abbrev pub IsSorted : List A → Type 0
  IsSorted [] = Unit
  IsSorted (x ∷ xs) = All (λ y. less y x ≡ false) xs × IsSorted xs

module _ {ℓ} {A : Type ℓ} ⦃e : Eq A⦄ (less : A → A → Bool) where
  elem-insert : (b a : A) (xs : List A) → elem b (insert less a xs) ≡ (e.beq a b || elem b xs)
  unfolding insert elem
  elem-insert b a [] = refl
  elem-insert b a (x ∷ xs) = ground (arith, elem-insert b a xs)

  -- Sorting keeps the members.
  pub elem-sort : (b : A) (xs : List A) → elem b (sort less xs) ≡ elem b xs
  unfolding sort elem
  elem-sort b [] = refl
  elem-sort b (x ∷ xs) = ground (arith, elem-insert b x (sort less xs), elem-sort b xs)

module _ {ℓ} {A : Type ℓ} (less : A → A → Bool) (P : A → Type 0) where
  All-insert : (a : A) (l : List A) → P a → All P l → All P (insert less a l)
  unfolding insert
  All-insert a [] p h = (p, tt)
  All-insert a (x ∷ l) p h =
      if-keeps (All P) (less x a) _ _ (λ e. (h.0, All-insert a l p h.1)) (λ e. (p, h))

  -- What all elements have, they have after sorting.
  pub All-sort : (l : List A) → All P l → All P (sort less l)
  unfolding sort
  All-sort [] h = tt
  All-sort (x ∷ l) h = All-insert x (sort less l) h.0 (All-sort l h.1)
