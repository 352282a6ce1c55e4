-- ===== src/Image/Containerd/Tracked.antt =====
-- The descriptors that jobs.go of pkg/image/containerd tracks.
use stereoscope.Go.Maps.{elem, elem-append}
use stereoscope.Image.Containerd.Jobs.{Descriptor, Jobs, new_jobs, add_job, add_jobs}
use stereoscope.Prelude.{
  List, [], ◌∷◌, ◌++◌, false, ◌||◌, Str, str_eq, str_eq_iff, byte_string_eq, ◌≡◌, refl, arith,
  if-keeps,
}

abbrev pub digests : List Descriptor → List Str
digests [] = []
digests (d ∷ ds) = d.digest ∷ digests ds

-- No element stands twice.
abbrev pub Distinct : List Str → Type 0
Distinct [] = Unit
Distinct (x ∷ xs) = (elem x xs ≡ false) × Distinct xs

digests-append :
    (ds : List Descriptor) (d : Descriptor) → digests (ds ++ d ∷ []) ≡ digests ds ++ d.digest ∷ []
digests-append [] d = refl
digests-append (x ∷ ds) d = rw (digests-append ds d) refl

append-Distinct :
    (xs : List Str) (y : Str) → Distinct xs → elem y xs ≡ false → Distinct (xs ++ y ∷ [])
unfolding elem
append-Distinct [] y h new = (refl, tt)
append-Distinct (x ∷ xs) y h new = (
  ground (arith, elem-append x y xs, h.0, str_eq_iff x y, str_eq_iff y x),
  append-Distinct xs y h.1 (ground arith),
)

-- The set of the digests goes with the descriptors.
abbrev InStep : Jobs → Type 0
InStep j = (j.added ≡ digests j.descs) × Distinct (digests j.descs)

add_job-InStep : (d : Descriptor) (j : Jobs) → InStep j → InStep (add_job d j)
unfolding add_job
add_job-InStep d j h =
    if-keeps InStep (elem d.digest j.added) _ _ (λ e. h)
      (λ e. (
        rw (h.0, digests-append j.descs d) refl,
        rw (digests-append j.descs d)
            (append-Distinct (digests j.descs) d.digest h.1 (rw h.0 at e)),
      ))

elem-add_job :
    (x : Str) (d : Descriptor) (j : Jobs)
    → InStep j
    → elem x (digests (add_job d j).descs) ≡ (str_eq d.digest x || elem x (digests j.descs))
unfolding add_job
elem-add_job x d j h = ground (
  arith,
  h.0,
  digests-append j.descs d,
  elem-append x d.digest (digests j.descs),
  str_eq_iff d.digest x,
)

adds :
    (ds : List Descriptor) (j : Jobs) (x : Str)
    → InStep j
    → InStep (add_jobs ds j)
      × (elem x (digests (add_jobs ds j).descs) ≡ (elem x (digests ds) || elem x (digests j.descs)))
unfolding add_jobs elem
adds [] j x h = (h, refl)
adds (d ∷ ds) j x h =
    let (step, all) = adds ds (add_job d j) x (add_job-InStep d j h) in
    (step, ground (arith, all, elem-add_job x d j h))

-- Whatever a pull adds, no digest is tracked twice, and a digest is tracked exactly if a descriptor with it was
-- added.
pub add_jobs-Distinct :
    (name : Str) (ds : List Descriptor)
    → Distinct (digests (add_jobs ds (new_jobs name)).descs)
      × ((x : Str) → elem x (digests (add_jobs ds (new_jobs name)).descs) ≡ elem x (digests ds))
unfolding elem
add_jobs-Distinct name ds = (
  (adds ds (new_jobs name) [] (refl, tt)).0.1,
  λ x. ground (arith, (adds ds (new_jobs name) x (refl, tt)).1),
)
