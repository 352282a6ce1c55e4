-- ===== src/Image/Registry.antt =====
-- pkg/image/registry_credentials.go and registry_options.go: which credentials are used with a registry. `Auth` is
-- the type `authn.Authenticator` of go-containerregistry.
pub mod Chosen
pub mod Tls
pub mod Trusted
use stereoscope.Go.Maps.{elem}
use stereoscope.Go.Sort.{sort}
use stereoscope.Prelude.{
  ℕ, suc, List, [], ◌∷◌, map, Option, none, some, Bool, true, false, not, ◌&&◌, Str, codes, str_eq,
  byte_string_eq, ltb, if◌then◌else◌,
}

-- `RegistryCredentials`
pub record RegistryCredentials (Auth : Type 0) : Type 0 where
  pub authority : Str
  pub username : Str
  pub password : Str
  pub token : Str
  pub given : Option Auth
  pub client_cert : Str
  pub client_key : Str

-- `authn.Basic` and `authn.Bearer`
pub record AuthKinds (Auth : Type 0) : Type 0 where
  pub basic : Str → Str → Auth
  pub bearer : Str → Auth

-- The names of Docker's registry.
abbrev pub docker_aliases : List Str
docker_aliases = codes "registry-1.docker.io" ∷ codes "index.docker.io" ∷ codes "docker.io" ∷ []

-- `credentialSelection`
abbrev pub Selection : Type 0 → Type 0
Selection Auth = RegistryCredentials Auth × ℕ

module _ {Auth : Type 0} where
  -- `hasAuthoritySpecified`
  unfoldable pub has_authority : RegistryCredentials Auth → Bool
  has_authority c = not (str_eq c.authority [])

  -- `canBeUsedWithRegistry`
  unfoldable pub can_be_used : RegistryCredentials Auth → Str → Bool
  unfolding has_authority elem
  can_be_used c registry =
      if not (has_authority c)
      then true
      else if elem c.authority docker_aliases && elem registry docker_aliases
      then true
      else str_eq registry c.authority

  -- `authenticator`
  unfoldable pub authenticator : AuthKinds Auth → RegistryCredentials Auth → Option Auth
  authenticator kinds c =
      let by_token = if not (str_eq c.token []) then some (kinds.bearer c.token) else none in
      let by_fields =
        if not (str_eq c.username []) && not (str_eq c.password [])
        then some (kinds.basic c.username c.password)
        else by_token in
      elim c.given [ some a ↦ some a | none ↦ by_fields ]

  -- The loop of `selectMostSpecificCredentials`, from an index on.
  unfoldable pub usable_from : Str → ℕ → List (RegistryCredentials Auth) → List (Selection Auth)
  unfolding can_be_used
  usable_from registry idx [] = []
  usable_from registry idx (c ∷ cs) =
      let rest = usable_from registry (suc idx) cs in
      if not (can_be_used c registry) then rest else (c, idx) ∷ rest

  -- The order of `selectMostSpecificCredentials`.
  unfoldable pub more_specific : Selection Auth → Selection Auth → Bool
  unfolding has_authority
  more_specific (c, i) (d, j) =
      if has_authority c && has_authority d
      then ltb i j
      else if has_authority c && not (has_authority d)
      then true
      else false

  -- `selectMostSpecificCredentials`
  unfoldable pub select_most_specific :
      List (RegistryCredentials Auth) → Str → List (Selection Auth)
  unfolding usable_from more_specific sort
  select_most_specific cs registry = sort more_specific (usable_from registry 0 cs)

  -- The loop of `Authenticator`.
  unfoldable pub first_authenticator : AuthKinds Auth → List (Selection Auth) → Option Auth
  unfolding authenticator
  first_authenticator kinds [] = none
  first_authenticator kinds ((c, i) ∷ rest) =
      let later = first_authenticator kinds rest in
      elim (authenticator kinds c) [ some a ↦ some a | none ↦ later ]

  -- `RegistryOptions.Authenticator`
  unfoldable pub authenticator_for :
      AuthKinds Auth → List (RegistryCredentials Auth) → Str → Option Auth
  unfolding select_most_specific first_authenticator
  authenticator_for kinds cs registry = first_authenticator kinds (select_most_specific cs registry)
