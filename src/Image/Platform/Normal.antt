-- ===== src/Image/Platform/Normal.antt =====
-- What `normalizeArch` of pkg/image/platform.go leaves: pairs that it does not change again.
use stereoscope.Image.Platform.{
  lower_byte, to_lower, specifier_byte, all_bytes, matches_specifier, arm64_variant, arm_variant,
  normalize_lower, normalize_arch,
}
use stereoscope.Prelude.{
  ℕ, [], ◌∷◌, true, ◌||◌, Str, str_eq, str_eq_iff, codes, byte_string_eq, if-keeps, Bool-cases, ◌≡◌,
  refl, ap, ◌⊎◌, inl, inr, arith,
}

lower_byte_idem : (c : ℕ) → lower_byte (lower_byte c) ≡ lower_byte c
unfolding lower_byte
lower_byte_idem c = ground arith

pub to_lower_idem : (s : Str) → to_lower (to_lower s) ≡ to_lower s
unfolding to_lower
to_lower_idem [] = refl
to_lower_idem (c ∷ s) = ground (arith, lower_byte_idem c, to_lower_idem s)

specifier_byte-lower : (c : ℕ) → specifier_byte c ≡ true → specifier_byte (lower_byte c) ≡ true
unfolding specifier_byte lower_byte
specifier_byte-lower c h = ground arith

all_bytes-lower :
    (s : Str) → all_bytes specifier_byte s ≡ true → all_bytes specifier_byte (to_lower s) ≡ true
unfolding all_bytes to_lower
all_bytes-lower [] h = refl
all_bytes-lower (c ∷ s) h = ground (arith, specifier_byte-lower c, all_bytes-lower s)

-- Nothing, or what the pattern of specifiers matches.
abbrev pub IsOptional : Str → Type 0
IsOptional v = (v ≡ []) ⊎ (matches_specifier v ≡ true)

to_lower-IsOptional : (v : Str) → IsOptional v → IsOptional (to_lower v)
unfolding to_lower matches_specifier
to_lower-IsOptional [] h = inl refl
to_lower-IsOptional (c ∷ s) (inl e) = cc
to_lower-IsOptional (c ∷ s) (inr h) = inr (all_bytes-lower (c ∷ s) h)

-- A pair that the change to lower case and the normalization leave as it is.
pub record IsNormal (f : Str × Str) : Type 0 where
  pub arch_lower : to_lower f.0 ≡ f.0
  pub variant_lower : to_lower f.1 ≡ f.1
  pub fixed : normalize_lower f.0 f.1 ≡ f
  pub optional : IsOptional f.1

module _ (v : Str) (lower : to_lower v ≡ v) (optional : IsOptional v) where
  arm64-IsNormal : IsNormal (codes "arm64", arm64_variant v)
  unfolding to_lower normalize_lower matches_specifier arm64_variant str_eq
  arm64-IsNormal = elim (Bool-cases (str_eq v (codes "8") || str_eq v (codes "v8"))) [
    | inl e ↦
        rw e (record { arch_lower = refl; variant_lower = refl; fixed = refl; optional = inl refl })
    | inr e ↦
        rw e
          (record { arch_lower = refl; variant_lower = lower; fixed = rw e; optional = optional })
  ]

  arm-IsNormal : IsNormal (codes "arm", arm_variant v)
  unfolding to_lower normalize_lower matches_specifier arm_variant str_eq
  arm-IsNormal = elim (Bool-cases (str_eq v [] || str_eq v (codes "7"))) [
    | inl e ↦
        rw e (record { arch_lower = refl; variant_lower = refl; fixed = refl; optional = inr refl })
    | inr e ↦
        elim (Bool-cases (str_eq v (codes "5") || str_eq v (codes "6") || str_eq v (codes "8"))) [
          | inl e' ↦ rw (e, e') (numbered e')
          | inr e' ↦
              rw (e, e')
                (record {
                  arch_lower = refl;
                  variant_lower = lower;
                  fixed = rw (e, e');
                  optional = optional;
                })
        ]
  ]
    where
      numbered :
          str_eq v (codes "5") || str_eq v (codes "6") || str_eq v (codes "8") ≡ true
          → IsNormal (codes "arm", b'v' ∷ v)
      numbered e = record {
        arch_lower = refl;
        variant_lower = ap (◌∷◌ b'v') lower;
        fixed =
            ground
              (arith, str_eq_iff v (codes "5"), str_eq_iff v (codes "6"), str_eq_iff v (codes "8"));
        optional = inr (
            ground (
              arith,
              str_eq_iff v (codes "5"),
              str_eq_iff v (codes "6"),
              str_eq_iff v (codes "8"),
            ));
      }

  normalize_lower-IsNormal : (a : Str) → to_lower a ≡ a → IsNormal (normalize_lower a v)
  unfolding to_lower normalize_lower matches_specifier str_eq
  normalize_lower-IsNormal a h =
      if-keeps IsNormal (str_eq a (codes "i386")) _ _ (λ e. plain (codes "386") refl refl)
        (λ e1.
          if-keeps IsNormal (str_eq a (codes "x86_64") || str_eq a (codes "x86-64")) _ _
            (λ e. plain (codes "amd64") refl refl)
            (λ e2.
              if-keeps IsNormal (str_eq a (codes "aarch64") || str_eq a (codes "arm64")) _ _
                (λ e. arm64-IsNormal)
                (λ e3.
                  if-keeps IsNormal (str_eq a (codes "armhf")) _ _
                    (λ e. record {
                      arch_lower = refl;
                      variant_lower = refl;
                      fixed = refl;
                      optional = inr refl;
                    })
                    (λ e4.
                      if-keeps IsNormal (str_eq a (codes "armel")) _ _
                        (λ e. record {
                          arch_lower = refl;
                          variant_lower = refl;
                          fixed = refl;
                          optional = inr refl;
                        })
                        (λ e5.
                          if-keeps IsNormal (str_eq a (codes "arm")) _ _
                            (λ e. rw ((str_eq_iff a (codes "arm")).0 e) arm-IsNormal)
                            (λ e6. record {
                              arch_lower = h;
                              variant_lower = lower;
                              fixed = rw (e1, e2, e3, e4, e5, e6);
                              optional = optional;
                            }))))))
    where
      plain : (b : Str) → to_lower b ≡ b → normalize_lower b [] ≡ (b, []) → IsNormal (b, [])
      plain b h e = record { arch_lower = h; variant_lower = refl; fixed = e; optional = inl refl }

-- `normalizeArch` changes the pair that it returns no more, and its variant is empty or a part of a specifier
-- if the one that was given is.
pub normalize_arch-IsNormal : (a v : Str) → IsOptional v → IsNormal (normalize_arch a v)
unfolding normalize_arch
normalize_arch-IsNormal a v h =
    normalize_lower-IsNormal (to_lower v) (to_lower_idem v) (to_lower-IsOptional v h) (to_lower a)
      (to_lower_idem a)

pub normalize_arch-fixed : (f : Str × Str) → IsNormal f → normalize_arch f.0 f.1 ≡ f
unfolding normalize_arch
normalize_arch-fixed f h = rw (h.arch_lower, h.variant_lower) h.fixed
