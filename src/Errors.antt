-- ===== src/Errors.antt =====
-- The errors of pkg/tree and pkg/filetree, as values. `panics` is a call through a nil pointer or a write
-- to a nil map. `out_of_fuel` is no error of the program: a loop of the model stops with it.
use stereoscope.Prelude.{ℕ, Str, ◌≡◌, ◌≢◌, ◌⊎◌, refl}

pub data Failure : Type 0 where
  id_collision : Str → Failure
  not_in_tree : Str → Failure
  self_edge : Str → Failure
  cannot_remove : Str → Failure
  -- `ErrRemovingRoot`, `ErrLinkCycleDetected`, `ErrLinkResolutionDepth`
  removing_root : Failure
  link_cycle : Failure
  link_depth : Failure
  -- a path that exists as another kind of file
  wrong_type : Str → Failure
  no_parent : Str → Failure
  parent_not_found : Str → Failure
  not_exist : Failure
  separator_in_basename : Failure
  unsupported_glob : Failure
  no_glob : Failure
  -- `errdefs.ErrInvalidArgument`, with the text that is refused
  invalid_argument : Str → Failure
  nil_node : Str → Failure
  -- `ErrMaxTraversalDepth`
  traversal_depth : Failure
  -- `ErrTarStopIteration`, `ErrFileNotFound`
  stop_iteration : Failure
  file_not_found : Str → Failure
  path_traversal : Str → Failure
  read_limit : Failure
  not_in_catalog : Str → Failure
  no_contents : Str → Failure
  no_cache_directory : Failure
  unknown_media_type : Str → Failure
  unknown_name : Str → Failure
  -- `io.EOF`, `os.ErrClosed`, and a seek to before the start
  end_of_file : Failure
  closed_file : Failure
  bad_offset : Failure
  -- a library that the program calls has failed
  from_library : Str → Failure
  -- `ErrMultipleManifests`, no manifest, a number of manifests, and an image of no bytes
  multiple_manifests : Failure
  no_manifest : Failure
  manifest_count : ℕ → Failure
  empty_image : Failure
  -- the API of a daemon does not answer
  no_api_response : Failure
  -- what an image has in place of what the user asks for
  wrong_platform : Str → Str → Failure
  no_platform : Failure
  panics : Failure
  out_of_fuel : Failure

-- What the resolution of links may fail with.
abbrev pub IsLinkFailure : Failure → Type 0
IsLinkFailure e = (e ≡ link_cycle) ⊎ (e ≡ link_depth)

pub data Result {ℓ} (A : Type ℓ) : Type ℓ where
  err : Failure → Result A
  ok : A → Result A

-- The fuel of the model did not run out.
abbrev pub Terminates : {A : Type 0} → Result A → Type 0
Terminates (ok a) = Unit
Terminates (err e) = e ≢ out_of_fuel

module _ {ℓ κ} {A : Type ℓ} {B : Type κ} where
  infixl 5 ◌>>=◌
  -- A failure skips the rest.
  abbrev pub ◌>>=◌ : Result A → (A → Result B) → Result B
  err failure >>= rest = err failure
  ok found >>= rest = rest found

  -- A result of two steps in a row has a result of the first one behind it.
  pub bind-eq-ok :
      (first : Result A) (rest : A → Result B) {b : B}
      → (first >>= rest) ≡ ok b
      → (found : A) × (first ≡ ok found) × (rest found ≡ ok b)
  bind-eq-ok (err failure) rest h = cc
  bind-eq-ok (ok found) rest h = (found, refl, h)

pub bind-Terminates :
    {A B : Type 0} (x : Result A) (f : A → Result B)
    → Terminates x
    → ((a : A) → Terminates (f a))
    → Terminates (x >>= f)
bind-Terminates (ok a) f h next = next a
bind-Terminates (err e) f h next = h

-- What an action leaves behind and what it returns: the state is kept when it fails.
abbrev pub Act {ℓ} : Type ℓ → Type ℓ → Type ℓ
Act S A = S → Result A × S

-- What an action leaves behind.
abbrev pub Leaves {ℓ} : {S A : Type ℓ} → (S → Type 0) → Result A × S → Type 0
Leaves P x = P x.1

-- An action, and another one on its result if it did not fail.
module _ {ℓ} {S A B : Type ℓ} where
  abbrev pub after : Result A × S → (A → Act S B) → Result B × S
  after (ok a, s) f = f a s
  after (err e, s) f = (err e, s)

module _ {ℓ} {S A B : Type ℓ} where
  -- What both actions keep, whether or not they fail, is kept by the two in a row.
  pub after-keeps :
      (P : S → Type 0) (x : Result A × S) (f : A → Act S B)
      → P x.1
      → ((a : A) (s : S) → P s → P (f a s).1)
      → P (after x f).1
  after-keeps P (ok a, s) f h keep = keep a s h
  after-keeps P (err e, s) f h keep = h

  -- Two actions in a row return a result if both do.
  pub after-eq-ok :
      (x : Result A × S) (f : A → Act S B) {b : B} {s' : S}
      → after x f ≡ (ok b, s')
      → (a : A) × (x.0 ≡ ok a) × (f a x.1 ≡ (ok b, s'))
  after-eq-ok (ok a, s) f h = (a, refl, h)
  after-eq-ok (err e, s) f h = cc
