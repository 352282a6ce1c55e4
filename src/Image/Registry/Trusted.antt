-- ===== src/Image/Registry/Trusted.antt =====
-- What `TLSConfig` of pkg/image/registry_options.go checks certificates against.
use mathlib.Core.Path.{subst}
use stereoscope.Errors.{ok, err, bind-eq-ok, no_contents}
use stereoscope.Image.Registry.{Selection, select_most_specific}
use stereoscope.Image.Registry.Tls.{
  RegistryOptions, TlsOptions, TlsLibrary, first_tls_options, only_skip, tls_options,
  tls_options_or, start_pool, append_certificate, append_certificates, certificate_files,
  with_certificates, tls_config,
}
use stereoscope.Prelude.{
  List, [], ◌∷◌, Option, none, some, Bool, true, false, not, ◌&&◌, ◌||◌, Str, str_eq, ◌≡◌, refl,
  if-keeps, if◌then◌else◌,
}

module _ {Auth Keychain : Type 0} (r : RegistryOptions Auth Keychain) where
  abbrev SkipsAlike : Option TlsOptions → Type 0
  SkipsAlike none = Unit
  SkipsAlike (some o) = o.insecure_skip_verify ≡ r.insecure_skip_tls_verify

  first_tls_options-SkipsAlike :
      (l : List (Selection Auth)) → SkipsAlike (first_tls_options r.insecure_skip_tls_verify l)
  unfolding first_tls_options
  first_tls_options-SkipsAlike [] = tt
  first_tls_options-SkipsAlike ((c, i) ∷ rest) =
      if-keeps SkipsAlike (not (str_eq c.client_cert []) || not (str_eq c.client_key [])) _ _
        (λ e. refl) (λ e. first_tls_options-SkipsAlike rest)

  tls_options-SkipsAlike : (registry : Str) → SkipsAlike (tls_options r registry)
  unfolding tls_options
  tls_options-SkipsAlike registry =
      go
        (first_tls_options r.insecure_skip_tls_verify (select_most_specific r.credentials registry))
        (first_tls_options-SkipsAlike (select_most_specific r.credentials registry))
    where
      go :
          (x : Option TlsOptions)
          → SkipsAlike x
          → SkipsAlike (elim x [
            | some o ↦ some o
            | none ↦
                if r.insecure_skip_tls_verify
                then some (only_skip r.insecure_skip_tls_verify)
                else none
          ])
      go (some o) h = h
      go none h = if-keeps SkipsAlike r.insecure_skip_tls_verify _ _ (λ e. refl) (λ e. tt)

  tls_options_or-skips :
      (registry : Str)
      → (tls_options_or r registry).insecure_skip_verify ≡ r.insecure_skip_tls_verify
  unfolding tls_options_or
  tls_options_or-skips registry = go (tls_options r registry) (tls_options-SkipsAlike registry)
    where
      go :
          (x : Option TlsOptions)
          → SkipsAlike x
          → (elim x as (λ y. TlsOptions) [
            | none ↦ only_skip r.insecure_skip_tls_verify
            | some o ↦ o
          ]).insecure_skip_verify
            ≡ r.insecure_skip_tls_verify
      go none h = refl
      go (some o) h = h

module _ {C Pool : Type 0} (library : TlsLibrary C Pool) where
  -- Each file is read, and its certificates are added to the pool.
  pub data AllAdded : List Str → Pool → Pool → Type 0 where
    no_files : {p : Pool} → AllAdded [] p p
    file_added :
        {f pem : Str} {fs : List Str} {p p1 p2 : Pool}
        → library.read_file f ≡ ok pem
        → library.append_certs pem p ≡ (true, p1)
        → AllAdded fs p1 p2
        → AllAdded (f ∷ fs) p p2

  append_certificates-AllAdded :
      (fs : List Str) (p p' : Pool) → append_certificates library fs p ≡ ok p' → AllAdded fs p p'
  unfolding append_certificates
  append_certificates-AllAdded [] p p' h = subst (λ q. AllAdded [] p q) (same p p' h) no_files
    where
      same : (q q' : Pool) → ok q ≡ ok q' → q ≡ q'
      same q q' e = cc
  append_certificates-AllAdded (f ∷ fs) p p' h =
      let (p1, first, rest) = bind-eq-ok (append_certificate library f p) _ h in
      let (pem, bytes, added) =
        bind-eq-ok (library.read_file f) _ (unfold append_certificate in first) in
      file_added bytes (whole (library.append_certs pem p) p1 added)
        (append_certificates-AllAdded fs p1 p' rest)
    where
      whole :
          (x : Bool × Pool) (q : Pool)
          → (if x.0 then ok x.1 else err (no_contents f)) ≡ ok q
          → x ≡ (true, q)
      whole (true, q') q e = cc
      whole (false, q') q e = cc

  module _ {Auth Keychain : Type 0} (r : RegistryOptions Auth Keychain) (registry : Str) where
    -- Whether the certificates of the user are added.
    abbrev pub adds_certificates : Bool
    adds_certificates = not r.insecure_skip_tls_verify && not (str_eq r.ca_file_or_dir [])

    -- The configuration that `TLSConfig` returns is that of the library, for options that skip the verification
    -- exactly if the user asks for it. Where the user asks to skip it, or names no certificates, it is returned as
    -- it is. Else the files of certificates were found, each of them was read and added, and the pool of the
    -- configuration is the one with all of them.
    pub tls_config_lem :
        (c : C)
        → tls_config library r registry ≡ ok c
        → (c0 : C) × (library.client (tls_options_or r registry) ≡ ok c0)
          × ((tls_options_or r registry).insecure_skip_verify ≡ r.insecure_skip_tls_verify)
          × (adds_certificates ≡ false → c ≡ c0)
          × (adds_certificates ≡ true
              → (files : List Str) × (pool : Pool) × (certificate_files library r.ca_file_or_dir
                  ≡ ok files)
                × AllAdded files (start_pool library c0) pool
                × (c ≡ library.with_root_cas pool c0))
    unfolding tls_config
    tls_config_lem c h =
        let (c0, e, rest) = bind-eq-ok (library.client (tls_options_or r registry)) _ h in
        (
          c0,
          e,
          tls_options_or-skips r registry,
          (λ no. same (rw no at rest)),
          (λ yes. added (rw yes at rest)),
        )
      where
        same : {x y : C} → ok x ≡ ok y → y ≡ x
        same e = cc

        added :
            {c0 : C}
            → with_certificates library r.ca_file_or_dir c0 ≡ ok c
            → (files : List Str) × (pool : Pool) × (certificate_files library r.ca_file_or_dir
                ≡ ok files)
              × AllAdded files (start_pool library c0) pool
              × (c ≡ library.with_root_cas pool c0)
        added {c0} e =
            let (files, listed, e1) =
              bind-eq-ok (certificate_files library r.ca_file_or_dir) _
                (unfold with_certificates in e) in
            let (pool, all, e2) =
              bind-eq-ok (append_certificates library files (start_pool library c0)) _ e1 in
            (
              files,
              pool,
              listed,
              append_certificates-AllAdded files (start_pool library c0) pool all,
              same e2,
            )
