-- ===== src/Image/Containerd/Hosts.antt =====
-- The references that `checkRegistryHostMissing` of pkg/image/containerd/daemon_provider.go gives.
use stereoscope.Go.Strings.{slash, split, contains}
use stereoscope.Image.Containerd.Provider.{check_registry_host_missing}
use stereoscope.Prelude.{
  ℕ, ◌==◌, Bool-cases, List, [], ◌∷◌, ◌++◌, not, Str, codes, ◌≡◌, refl, ap, ◌⊎◌, inl, inr,
  if◌then◌else◌, if-keeps,
}

-- The reference has a host that is not its only part.
abbrev pub HasHost : Str → Type 0
HasHost s = check_registry_host_missing s ≡ s

split-some : (s : Str) (sep : ℕ) → (p : Str) × (ps : List Str) × (split s sep ≡ p ∷ ps)
unfolding split
split-some [] sep = ([], [], refl)
split-some (c ∷ s) sep =
    let (p, ps, h) = split-some s sep in
    elim (Bool-cases (c == sep)) [
      | inl same ↦ ([], split s sep, rw same refl)
      | inr other ↦ (c ∷ p, ps, rw (other, h) refl)
    ]

docker_io : (s : Str) → HasHost (codes "docker.io/" ++ s)
unfolding check_registry_host_missing split contains
docker_io s = let (p, ps, h) = split-some s slash in rw h refl

-- The reference is as it was, or has the host of Docker Hub, and its library where it had one part.
abbrev pub Hosted : Str → Str → Type 0
Hosted image s =
    (s ≡ image) ⊎ ((s ≡ codes "docker.io/" ++ image) ⊎ (s ≡ codes "docker.io/library/" ++ image))

check_registry_host_missing-Hosted :
    (image : Str) → Hosted image (check_registry_host_missing image)
unfolding check_registry_host_missing
check_registry_host_missing-Hosted image = go (split image slash)
  where
    go :
        (x : List Str)
        → Hosted image (elim x as (λ y. Str) [
          | [] ↦ image
          | part ∷ parts ↦ elim parts as (λ y. Str) [
            | [] ↦ codes "docker.io/library/" ++ image
            | p ∷ ps ↦
                if not (contains part (codes ".")) then codes "docker.io/" ++ image else image
          ]
        ])
    go [] = inl refl
    go (part ∷ []) = inr (inr refl)
    go (part ∷ p ∷ ps) =
        if-keeps (Hosted image) (not (contains part (codes "."))) _ _ (λ e. inr (inl refl))
          (λ e. inl refl)

-- `checkRegistryHostMissing` leaves a reference as it is, or puts the host of Docker Hub in front of it, with the library
-- for one part; and it leaves as it is what it has given, so that a provider which checks its reference again
-- keeps it.
pub check_registry_host_missing-Hosted_once :
    (image : Str)
    → Hosted image (check_registry_host_missing image) × HasHost (check_registry_host_missing image)
check_registry_host_missing-Hosted_once image =
    (check_registry_host_missing-Hosted image, again (check_registry_host_missing-Hosted image))
  where
    again :
        Hosted image (check_registry_host_missing image)
        → HasHost (check_registry_host_missing image)
    again (inl same) = ap check_registry_host_missing same
    again (inr (inl h)) = rw h (docker_io image)
    again (inr (inr h)) = rw h (docker_io (codes "library/" ++ image))
