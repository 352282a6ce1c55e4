-- ===== src/Image/Registry/Tls.antt =====
-- `TLSConfig` of pkg/image/registry_options.go. The functions of tlsconfig, crypto/x509, os and doublestar are the
-- fields of `TlsLibrary`; `C` is the type `tls.Config` and `Pool` the type `x509.CertPool`.
use stereoscope.Errors.{Result, ok, err, ◌>>=◌, no_contents}
use stereoscope.Image.Registry.{RegistryCredentials, Selection, select_most_specific}
use stereoscope.Prelude.{
  List, [], ◌∷◌, Option, none, some, Bool, not, ◌&&◌, ◌||◌, Str, codes, str_eq, if◌then◌else◌,
}

-- `RegistryOptions`
pub record RegistryOptions (Auth Keychain : Type 0) : Type 0 where
  pub insecure_skip_tls_verify : Bool
  pub insecure_use_http : Bool
  pub credentials : List (RegistryCredentials Auth)
  pub keychain : Option Keychain
  pub ca_file_or_dir : Str

-- The fields of `tlsconfig.Options` that the source sets.
pub record TlsOptions : Type 0 where
  pub insecure_skip_verify : Bool
  pub cert_file : Str
  pub key_file : Str

pub record TlsLibrary (C Pool : Type 0) : Type 0 where
  -- `tlsconfig.Client`
  pub client : TlsOptions → Result C
  -- the field `RootCAs`, which may be nil, and its assignment
  pub root_cas : C → Option Pool
  pub with_root_cas : Pool → C → C
  pub system_pool : Result Pool
  pub new_pool : Pool
  -- `os.Stat`: whether it is a directory
  pub stat_is_dir : Str → Result Bool
  -- `doublestar.Glob` in the working directory
  pub glob : Str → Result (List Str)
  pub join_path : Str → Str → Str
  pub read_file : Str → Result Str
  -- `AppendCertsFromPEM`: whether it worked, and the pool
  pub append_certs : Str → Pool → Bool × Pool

-- The options with no files.
abbrev pub only_skip : Bool → TlsOptions
only_skip skip = record { insecure_skip_verify = skip; cert_file = []; key_file = [] }

module _ {Auth : Type 0} where
  -- The loop of `tlsOptions`.
  unfoldable pub first_tls_options : Bool → List (Selection Auth) → Option TlsOptions
  first_tls_options skip [] = none
  first_tls_options skip ((c, i) ∷ rest) =
      let later = first_tls_options skip rest in
      if not (str_eq c.client_cert []) || not (str_eq c.client_key [])
      then some (record {
        insecure_skip_verify = skip;
        cert_file = c.client_cert;
        key_file = c.client_key;
      })
      else later

module _ {Auth Keychain : Type 0} where
  -- `tlsOptions`
  unfoldable pub tls_options : RegistryOptions Auth Keychain → Str → Option TlsOptions
  unfolding first_tls_options
  tls_options r registry =
      elim (first_tls_options r.insecure_skip_tls_verify
        (select_most_specific r.credentials registry)) [
          | some o ↦ some o
          | none ↦
              if r.insecure_skip_tls_verify
              then some (only_skip r.insecure_skip_tls_verify)
              else none
        ]

  -- The options that `TLSConfig` hands to the library.
  unfoldable pub tls_options_or : RegistryOptions Auth Keychain → Str → TlsOptions
  unfolding tls_options
  tls_options_or r registry = elim (tls_options r registry) [
    | none ↦ only_skip r.insecure_skip_tls_verify
    | some o ↦ o
  ]

module _ {C Pool : Type 0} (library : TlsLibrary C Pool) where
  -- The pool that the certificates are added to.
  unfoldable pub start_pool : C → Pool
  start_pool c = elim (library.root_cas c) [
    | some p ↦ p
    | none ↦ elim library.system_pool [ err e ↦ library.new_pool | ok p ↦ p ]
  ]

  unfoldable pub append_certificate : Str → Pool → Result Pool
  append_certificate file pool = library.read_file file >>= λ pem.
      let (added, pool') = library.append_certs pem pool in
      if added then ok pool' else err (no_contents file)

  -- The loop over the certificates.
  unfoldable pub append_certificates : List Str → Pool → Result Pool
  unfolding append_certificate
  append_certificates [] pool = ok pool
  append_certificates (f ∷ fs) pool = append_certificate f pool >>= append_certificates fs

  -- The files of certificates at a path.
  unfoldable pub certificate_files : Str → Result (List Str)
  certificate_files ca = library.stat_is_dir ca >>= λ is_dir.
      if is_dir
      then library.glob (library.join_path ca (codes "*.{crt,pem,cert}"))
      else ok (ca ∷ [])

  -- The certificates at a path, added to the pool of a configuration. The pool is made before the files are searched
  -- for, which changes nothing.
  unfoldable pub with_certificates : Str → C → Result C
  unfolding start_pool append_certificates certificate_files
  with_certificates ca c = do
    files ← certificate_files ca
    pool ← append_certificates files (start_pool c)
    ok (library.with_root_cas pool c)

  -- `TLSConfig`
  unfoldable pub tls_config :
      {Auth Keychain : Type 0} → RegistryOptions Auth Keychain → Str → Result C
  unfolding tls_options_or with_certificates
  tls_config r registry = library.client (tls_options_or r registry) >>= λ c.
      if not r.insecure_skip_tls_verify && not (str_eq r.ca_file_or_dir [])
      then with_certificates r.ca_file_or_dir c
      else ok c
