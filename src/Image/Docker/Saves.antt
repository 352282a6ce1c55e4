-- ===== src/Image/Docker/Saves.antt =====
-- What `saveImage` and `Provide` of pkg/image/docker/daemon_provider.go save of an image that is there.
use mathlib.Core.Path.{subst}
use stereoscope.Errors.{Result, ok, err, Act, after, after-keeps, after-eq-ok}
use stereoscope.Image.Docker.Daemon.{
  Inspect, Inspected, inspected, not_found, inspect_failed, DaemonApi, validate_platform,
  inspection, Saved, call, save_image, save_validated,
}
use stereoscope.Image.Docker.Pulls.{AuthLibrary, Pull}
use stereoscope.Image.Platform.{Platform}
use stereoscope.Image.PullStatus.{Manual}
use stereoscope.Prelude.{
  ℕ, List, ◌++◌, Option, none, some, not, Str, codes, str_eq, str_eq_iff, ◌≡◌, ◌≢◌, refl, ap,
  Bool-cases, inl, inr, arith, ◌==◌, if-keeps,
}

-- The image is for the platform, if the user asks for one.
abbrev pub Matches : Option Platform → Inspect → Type 0
Matches none i = Unit
Matches (some p) i = (i.os ≡ p.os) × (i.architecture ≡ p.architecture)

abbrev Validated : Option Platform → Inspect → Result (Unit {0}) → Type 0
Validated platform i (ok u) = Matches platform i
Validated platform i (err e) = Unit

validate_platform-Validated :
    (platform : Option Platform) (i : Inspect) → Validated platform i (validate_platform platform i)
unfolding validate_platform
validate_platform-Validated none i = tt
validate_platform-Validated (some p) i =
    if-keeps (Validated (some p) i) (not (str_eq i.os p.os)) _ _ (λ e. tt)
      (λ e.
        if-keeps (Validated (some p) i) (not (str_eq i.architecture p.architecture)) _ _ (λ e'. tt)
          (λ e'. (
            ground (arith, str_eq_iff i.os p.os),
            ground (arith, str_eq_iff i.architecture p.architecture),
          )))

module _ {M A W R : Type 0} (manual : Manual M) (auth : AuthLibrary A) (api : DaemonApi W R)
    (name : Str) (platform : Option Platform) where
  abbrev State : Type 0
  State = W × List (Pull M)

  abbrev Keeps : State → State → Type 0
  Keeps s s' = s'.1 ≡ s.1

  -- The file holds the image: it was created, the daemon was then asked to save the image of the reference, and what
  -- it gave was copied to the file, which is the last call before the world `w`.
  pub record HoldsImage (image_ref file : Str) (w : W) : Type 0 where
    pub directory : Str
    pub before : W
    pub creates : (api.create_tar directory before).0 ≡ ok file
    pub reader : R
    pub saves : (api.image_save image_ref (api.create_tar directory before).1).0 ≡ ok reader
    pub count : ℕ
    pub copies :
        api.copy file reader (api.image_save image_ref (api.create_tar directory before).1).1
        ≡ (ok count, w)
    pub not_empty : count ≢ 0

  -- What is saved in a state is what the daemon says of a reference there, for the platform, and a file that holds the
  -- image of this reference.
  abbrev pub SavedOf : Str → State → Result Saved × State → Type 0
  SavedOf image_ref s (ok saved, s') =
      ((api.inspect image_ref s.0).0 ≡ inspected saved.known)
      × Matches platform saved.known
      × HoldsImage image_ref saved.file s'.0
  SavedOf image_ref s (err e, s') = Unit

  abbrev called : {B : Type 0} → Act W B → Act State B
  called f t = call manual auth api name platform f t

  save_image-Keeps :
      (image_ref : Str) (s : State)
      → Keeps s (save_image manual auth api name platform image_ref s).1
  unfolding save_image
  save_image-Keeps image_ref s =
      after-keeps (Keeps s)
        (inspection (api.inspect image_ref s.0).0, ((api.inspect image_ref s.0).1, s.1)) _ refl
        (λ i s1 h1.
          after-keeps (Keeps s) (called (api.new_directory (name ++ codes "-daemon-image")) s1) _ h1
            (λ dir s2 h2. after-keeps (Keeps s) (called (api.create_tar dir) s2) _ h2 (λ file s3 h3.
              after-keeps (Keeps s) (called (api.image_save image_ref) s3) _ h3 (λ reader s4 h4.
                after-keeps (Keeps s) (called (api.copy file reader) s4) _ h4 (λ n s5 h5.
                  if-keeps (λ (x : Result Str × State). Keeps s x.1) (n == 0) _ _ (λ e. h5)
                    (λ e. h5))))))

  -- The file of a save, if there is one, holds the image.
  abbrev SavedTo : Str → Result Str × State → Type 0
  SavedTo image_ref (ok file, s) = HoldsImage image_ref file s.0
  SavedTo image_ref (err e, s) = Unit

  save_image-SavedTo :
      (image_ref : Str) (s : State) (x : Result Str × State)
      → save_image manual auth api name platform image_ref s ≡ x
      → SavedTo image_ref x
  unfolding save_image
  save_image-SavedTo image_ref s (err e, s') h = tt
  save_image-SavedTo image_ref s (ok file, s') h =
      let (i, e1, h1) = after-eq-ok inspects _ h in
      let (dir, e2, h2) = after-eq-ok made _ h1 in
      let (created, e3, h3) = after-eq-ok (called (api.create_tar dir) made.1) _ h2 in
      let (reader, e4, h4) =
        after-eq-ok (called (api.image_save image_ref) (called (api.create_tar dir) made.1).1) _
          h3 in
      let (n, e5, h5) =
        after-eq-ok
          (called (api.copy created reader)
            (called (api.image_save image_ref) (called (api.create_tar dir) made.1).1).1)
          _ h4 in
      elim (Bool-cases (n == 0)) [
        | inl empty ↦ cc (rw empty at h5)
        | inr full ↦ subst (SavedTo image_ref) (rw full at h5) (record {
          directory = dir;
          before = made.1.0;
          creates = e3;
          reader = reader;
          saves = e4;
          count = n;
          copies = paired _ e5;
          not_empty = ground arith;
        })
      ]
    where
      paired : {n : ℕ} (x : Result ℕ × W) → x.0 ≡ ok n → x ≡ (ok n, x.1)
      paired x e = ap (λ r. (r, x.1)) e

      inspects : Result Inspect × State
      inspects = (inspection (api.inspect image_ref s.0).0, ((api.inspect image_ref s.0).1, s.1))

      made : Result Str × State
      made =
          called (api.new_directory (name ++ codes "-daemon-image"))
            ((api.inspect image_ref s.0).1, s.1)

  -- No pull, and the image of the reference.
  abbrev pub SavedAs : Str → State → Result Saved × State → Type 0
  SavedAs image_ref s x = SavedOf image_ref s x × Keeps s x.1

  pub save_validated-SavedAs :
      (image_ref : Str) (s : State)
      → SavedAs image_ref s (save_validated manual auth api name platform image_ref s)
  unfolding save_validated
  save_validated-SavedAs image_ref s = answered (api.inspect image_ref s.0).0 refl
    where
      s1 : State
      s1 = ((api.inspect image_ref s.0).1, s.1)

      kept :
          (i : Inspect) (x : Result Str × State)
          → (api.inspect image_ref s.0).0 ≡ inspected i
          → Matches platform i
          → SavedTo image_ref x
          → Keeps s x.1
          → SavedAs image_ref s (after x (λ file s3. (ok (record { file = file; known = i }), s3)))
      kept i (ok file, s3) at h held same = ((at, h, held), same)
      kept i (err e, s3) at h held same = (tt, same)

      matched :
          (i : Inspect) (x : Result (Unit {0}))
          → (api.inspect image_ref s.0).0 ≡ inspected i
          → Validated platform i x
          → SavedAs image_ref s (
              after
                (x, s1)
                (λ u s2.
                  after
                    (save_image manual auth api name platform image_ref s2)
                    (λ file s3. (ok (record { file = file; known = i }), s3))))
      matched i (ok u) at h =
          kept i _ at h (save_image-SavedTo image_ref s1 _ refl) (save_image-Keeps image_ref s1)
      matched i (err e) at h = (tt, refl)

      answered :
          (x : Inspected)
          → (api.inspect image_ref s.0).0 ≡ x
          → SavedAs image_ref s (
              after
                (inspection x, s1)
                (λ known s1.
                  after
                    (validate_platform platform known, s1)
                    (λ u s2.
                      after
                        (save_image manual auth api name platform image_ref s2)
                        (λ file s3. (ok (record { file = file; known = known }), s3)))))
      answered (inspected i) at =
          unfold inspection in
          matched i (validate_platform platform i) at (validate_platform-Validated platform i)
      answered not_found at = unfold inspection in (tt, refl)
      answered (inspect_failed e) at = unfold inspection in (tt, refl)
