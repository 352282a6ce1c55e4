-- ===== src/Image/Oci/Directory.antt =====
-- The manifest that `Provide` of pkg/image/oci/directory_provider.go chooses.
use stereoscope.Errors.{Result, ok, err, manifest_count}
use stereoscope.Go.Maps.{elem}
use stereoscope.Image.Oci.{all_same, check_manifest_digests_equal, chosen_manifest}
use stereoscope.Prelude.{
  List, [], ◌∷◌, Bool, true, false, ◌&&◌, Str, str_eq, str_eq_iff, byte_string_eq, length, ◌==◌,
  ◌≡◌, ◌≢◌, refl, arith, All, ◌⊎◌, inl, inr, if◌then◌else◌, if-keeps, Bool-cases,
}

-- There is another digest than this one.
abbrev pub HasOther : Str → List Str → Type 0
HasOther digest ds = (d : Str) × (elem d ds ≡ true) × (d ≢ digest)

-- Whether each digest is this one, or which is not.
abbrev SameOrNot : Str → List Str → Bool → Type 0
SameOrNot digest ds true = All (λ d. d ≡ digest) ds
SameOrNot digest ds false = HasOther digest ds

all_same-SameOrNot : (digest : Str) (ds : List Str) → SameOrNot digest ds (all_same digest ds)
unfolding all_same elem
all_same-SameOrNot digest [] = tt
all_same-SameOrNot digest (d ∷ ds) =
    go (Bool-cases (str_eq d digest)) (all_same digest ds) (all_same-SameOrNot digest ds)
  where
    go :
        (str_eq d digest ≡ true) ⊎ (str_eq d digest ≡ false)
        → (x : Bool) → SameOrNot digest ds x
        → SameOrNot digest (d ∷ ds) (str_eq d digest && x)
    go (inl same) true h = rw same ((str_eq_iff d digest).0 same, h)
    go (inl same) false (other, there, differs) = rw same (other, ground arith, differs)
    go (inr other) x h =
        rw other (d, ground (arith, str_eq_iff d d), ground (arith, str_eq_iff d digest))

-- The digest of all manifests, or an error, as there are none, or as two digests differ.
abbrev pub Chosen : List Str → Result Str → Type 0
Chosen ds (ok digest) = (ds ≢ []) × All (λ d. d ≡ digest) ds
Chosen ds (err e) =
    (e ≡ manifest_count (length ds))
    × ((ds ≡ []) ⊎ ((first : Str) × (elem first ds ≡ true) × HasOther first ds))

-- An image is taken from a directory exactly if its index has manifests and all have one digest, which is then the
-- digest of the image; else the error has their number.
pub chosen_manifest-Chosen : (ds : List Str) → Chosen ds (chosen_manifest ds)
unfolding chosen_manifest check_manifest_digests_equal elem
chosen_manifest-Chosen [] = (refl, inl refl)
chosen_manifest-Chosen (d ∷ ds) =
    if-keeps (Chosen (d ∷ ds)) (length (d ∷ ds) == 1) _ _ (λ e. ((λ h. cc), (refl, one ds e)))
      (λ e. more (all_same d (d ∷ ds)) (all_same-SameOrNot d (d ∷ ds)))
  where
    one : (ds' : List Str) → (length (d ∷ ds') == 1) ≡ true → All (λ x. x ≡ d) ds'
    one [] e = tt
    one (x ∷ xs) e = ground arith

    more :
        (x : Bool)
        → SameOrNot d (d ∷ ds) x
        → Chosen (d ∷ ds) (if x then ok d else err (manifest_count (length (d ∷ ds))))
    more true h = ((λ e. cc), h)
    more false h = (refl, inr (d, ground (arith, str_eq_iff d d), h))
