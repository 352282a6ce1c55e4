-- ===== src/Client/Detected.antt =====
-- The loop of `getImageFromSource` in client.go over the providers.
use stereoscope.Client.{ClientError, undetected, Provider, listed, with_metadata, first_image}
use stereoscope.Errors.{Failure}
use stereoscope.Image.Images.{Image}
use stereoscope.Image.Metadata.{AdditionalMetadata}
use stereoscope.Prelude.{
  List, [], ◌∷◌, ◌++◌, append_assoc, append-nil, Option, none, some, Str, ◌≡◌, refl, ap, ◌∙◌, ◌⊎◌,
  inl, inr,
}

module _ {W : Type 0} where
  -- No provider of a list gives an image, from one world to another: the errors, in order.
  pub data NoneGave : W → List (Provider W) → List Failure → W → Type 0 where
    none_left : {w : W} → NoneGave w [] [] w
    gave_none :
        {w w1 w2 : W} {e : Option Failure} {ps : List (Provider W)} {es : List Failure}
        (p : Provider W)
        → p.provide w ≡ ((none, e), w1)
        → NoneGave w1 ps es w2
        → NoneGave w (p ∷ ps) (listed e ++ es) w2

  -- No provider gives an image: the loop fails with the errors of all, behind those so far.
  pub record NoneFound (input : Str) (ps : List (Provider W)) (errs : List Failure) (w : W)
      (out : (Option Image × Option ClientError) × W) : Type 0 where
    pub errors : List Failure
    pub world : W
    pub gave : NoneGave w ps errors world
    pub fails : out ≡ ((none, some (undetected input (errs ++ errors))), world)

  -- The first provider that gives an image: the loop returns it with the changes of its metadata.
  pub record FirstFound (metadata : List AdditionalMetadata) (ps : List (Provider W)) (w : W)
      (out : (Option Image × Option ClientError) × W) : Type 0 where
    pub before : List (Provider W)
    pub provider : Provider W
    pub after : List (Provider W)
    pub errors : List Failure
    pub world : W
    pub image : Image
    pub provided : (Option Image × Option Failure) × W
    pub split : ps ≡ before ++ provider ∷ after
    pub gave : NoneGave w before errors world
    pub gives : provider.provide world ≡ provided
    pub is_image : provided.0.0 ≡ some image
    pub returns : out ≡ (with_metadata metadata image, provided.1)

  abbrev pub Detection :
      Str
      → List AdditionalMetadata
      → List (Provider W)
      → List Failure
      → W
      → (Option Image × Option ClientError) × W
      → Type 0
  Detection input metadata ps errs w out =
      NoneFound input ps errs w out ⊎ FirstFound metadata ps w out

  -- The loop over the providers tries them in order. If none gives an image, it fails with all their errors, in
  -- order. Else it returns the image of the first that gives one, with the changes of its metadata, and later
  -- providers are not asked.
  pub first_image-Detection :
      (input : Str) (metadata : List AdditionalMetadata) (ps : List (Provider W))
      (errs : List Failure) (w : W)
      → Detection input metadata ps errs w (first_image input metadata ps errs w)
  unfolding first_image
  first_image-Detection input metadata [] errs w =
      inl (record { errors = []; world = w; gave = none_left; fails = rw (append-nil errs) refl })
  first_image-Detection input metadata (p ∷ ps) errs w =
      tried (first_image-Detection input metadata ps) (p.provide w) refl
    where
      tried :
          ((errs' : List Failure) (w' : W)
            → Detection input metadata ps errs' w' (first_image input metadata ps errs' w'))
          → (x : (Option Image × Option Failure) × W) → p.provide w ≡ x
          → Detection input metadata (p ∷ ps) errs w (elim x.0.0 [
            | some image ↦ (with_metadata metadata image, x.1)
            | none ↦ first_image input metadata ps (errs ++ listed x.0.1) x.1
          ])
      tried later ((some image, e), w1) h = inr (record {
        before = [];
        provider = p;
        after = ps;
        errors = [];
        world = w;
        image = image;
        provided = ((some image, e), w1);
        split = refl;
        gave = none_left;
        gives = h;
        is_image = refl;
        returns = refl;
      })
      tried later ((none, e), w1) h = elim (later (errs ++ listed e) w1) [
        | inl f ↦ inl (record {
          errors = listed e ++ f.errors;
          world = f.world;
          gave = gave_none p h f.gave;
          fails = f.fails ∙ rw (append_assoc errs (listed e) f.errors) refl;
        })
        | inr f ↦ inr (record {
          before = p ∷ f.before;
          provider = f.provider;
          after = f.after;
          errors = listed e ++ f.errors;
          world = f.world;
          image = f.image;
          provided = f.provided;
          split = ap (λ l. p ∷ l) f.split;
          gave = gave_none p h f.gave;
          gives = f.gives;
          is_image = f.is_image;
          returns = f.returns;
        })
      ]
