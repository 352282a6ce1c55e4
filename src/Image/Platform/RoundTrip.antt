-- ===== src/Image/Platform/RoundTrip.antt =====
-- `NewPlatform` and `String` of pkg/image/platform.go: what is printed is read again.
use mathlib.Core.Path.{subst}
use stereoscope.Errors.{Result, ok, err, ◌>>=◌}
use stereoscope.Go.Maps.{elem}
use stereoscope.Go.Strings.{slash, split, join, contains}
use stereoscope.Image.Platform.{
  Platform, matches_specifier, all_match, is_known_os, is_known_arch, normalize_arch, with_arch,
  to_string, normalize_os, parse_parts, parse, new_platform,
}
use stereoscope.Image.Platform.Normal.{IsNormal, normalize_arch-IsNormal, normalize_arch-fixed}
use stereoscope.Prelude.{
  List, [], ◌∷◌, true, false, not, Str, str_eq, str_eq_iff, codes, byte_string_eq, if◌then◌else◌,
  if-keeps, some, ◌≡◌, refl, ◌⊎◌, inl, inr, arith,
}
use stereoscope.Image.Platform.Parts.{fixed_system, known_os-fixed, known_arch-matches, parse-join}

-- What `parse` returns: a system that is known or left open, with no architecture or a normal one.
record IsRead (p : Platform) : Type 0 where
  system : (p.os ≡ []) ⊎ (is_known_os p.os ≡ true)
  arch :
      ((p.architecture ≡ []) × (p.variant ≡ []))
      ⊎ ((is_known_arch p.architecture ≡ true) × IsNormal (p.architecture, p.variant))

abbrev Reads : Result Platform → Type 0
Reads (ok p) = IsRead p
Reads (err e) = Unit

with_arch-Reads :
    (specifier os : Str) (f : Str × Str)
    → (os ≡ []) ⊎ (is_known_os os ≡ true)
    → IsNormal f
    → Reads (with_arch specifier os f)
unfolding with_arch
with_arch-Reads specifier os (arch, variant) h normal =
    if-keeps Reads (is_known_arch arch) _ _ (λ e. record { system = h; arch = inr (e, normal) })
      (λ e. tt)

module _ (goos specifier : Str) where
  parse_parts-Reads : (ps : List Str) → all_match ps ≡ true → Reads (parse_parts goos specifier ps)
  unfolding parse_parts all_match
  parse_parts-Reads [] h = tt
  parse_parts-Reads (a ∷ []) h =
      if-keeps Reads (is_known_os (normalize_os goos a)) _ _
        (λ e. record { system = inr e; arch = inl (refl, refl) })
        (λ e.
          with_arch-Reads specifier [] (normalize_arch a []) (inl refl)
            (normalize_arch-IsNormal a [] (inl refl)))
  parse_parts-Reads (a ∷ b ∷ []) h =
      if-keeps Reads (is_known_os (normalize_os goos a)) _ _
        (λ e.
          with_arch-Reads specifier (normalize_os goos a) (normalize_arch b []) (inr e)
            (normalize_arch-IsNormal b [] (inl refl)))
        (λ e.
          with_arch-Reads specifier [] (normalize_arch a b) (inl refl)
            (normalize_arch-IsNormal a b (inr (ground arith))))
  parse_parts-Reads (a ∷ b ∷ c ∷ []) h =
      with_arch-Reads specifier _ (normalize_arch b c)
        (if-keeps (λ os. (os ≡ []) ⊎ (is_known_os os ≡ true)) (is_known_os (normalize_os goos a)) _
          _ (λ e. inr e) (λ e. inl refl))
        (normalize_arch-IsNormal b c (inr (ground arith)))
  parse_parts-Reads (a ∷ b ∷ c ∷ d ∷ ps) h = tt

  parse-Reads : Reads (parse goos specifier)
  unfolding parse
  parse-Reads =
      if-keeps Reads (contains specifier (codes "*")) _ _ (λ e. tt)
        (λ e.
          if-keeps Reads (not (all_match (split specifier slash))) _ _ (λ e'. tt)
            (λ e'. parse_parts-Reads (split specifier slash) (ground arith)))

-- What `NewPlatform` returns.
abbrev Names : Result Platform → Type 0
Names (ok p) = IsRead p × (is_known_os p.os ≡ true)
Names (err e) = Unit

named :
    (x : Result Platform)
    → Reads x
    → Names (x >>= λ p. ok (if str_eq p.os [] then record p { os = codes "linux" } else p))
unfolding is_known_os str_eq elem
named (err e) h = tt
named (ok p) h =
    if-keeps (λ q. IsRead q × (is_known_os q.os ≡ true)) (str_eq p.os []) _ _
      (λ e. (record { system = inr refl; arch = h.arch }, refl))
      (λ e. (
        h,
        elim h.system [ inl none_given ↦ absurd (cc (rw none_given at e)) | inr known ↦ known ],
      ))

module _ (goos os : Str) (known : is_known_os os ≡ true) where
  system_match : matches_specifier os ≡ true
  system_match = let fixed = known_os-fixed goos os known in unfold fixed_system in ground arith

  system_fixed : normalize_os goos os ≡ os
  system_fixed =
      (str_eq_iff (normalize_os goos os) os).0
        (let fixed = known_os-fixed goos os known in unfold fixed_system in ground arith)

  system_some : str_eq os [] ≡ false
  system_some = let fixed = known_os-fixed goos os known in unfold fixed_system in ground arith

  -- The parts are read once the system is.
  read_parts :
      (ps : List Str) (p : Platform)
      → all_match ps ≡ true
      → p.os ≡ os
      → parse_parts goos (join (os ∷ ps) slash) (os ∷ ps) ≡ ok p
      → new_platform goos (join (os ∷ ps) slash) ≡ ok p
  unfolding new_platform all_match
  read_parts ps p h same e =
      rw (parse-join goos (os ∷ ps) (cc) (rw system_match h), e, same, system_some) refl

  print_system :
      new_platform goos (join (os ∷ []) slash)
      ≡ ok (record { architecture = []; os = os; variant = [] })
  unfolding all_match parse_parts
  print_system =
      read_parts [] (record { architecture = []; os = os; variant = [] }) refl refl
        (rw (system_fixed, known) refl)

  module _ (arch variant : Str) (known_arch : is_known_arch arch ≡ true)
      (normal : IsNormal (arch, variant)) where
    arch_read :
        (specifier : Str)
        → with_arch specifier os (normalize_arch arch variant)
          ≡ ok (record { architecture = arch; os = os; variant = variant })
    unfolding with_arch
    arch_read specifier = rw (normalize_arch-fixed (arch, variant) normal, known_arch) refl

    print_variant :
        matches_specifier variant ≡ true
        → new_platform goos (join (os ∷ arch ∷ variant ∷ []) slash)
          ≡ ok (record { architecture = arch; os = os; variant = variant })
    unfolding all_match parse_parts
    print_variant h =
        read_parts (arch ∷ variant ∷ [])
          (record { architecture = arch; os = os; variant = variant })
          (rw (known_arch-matches arch known_arch, h) refl) refl
          (rw (system_fixed, known) (arch_read _))

  print_arch :
      (arch : Str)
      → is_known_arch arch ≡ true
      → IsNormal (arch, [])
      → new_platform goos (join (os ∷ arch ∷ []) slash)
        ≡ ok (record { architecture = arch; os = os; variant = [] })
  unfolding all_match parse_parts
  print_arch arch known_arch normal =
      read_parts (arch ∷ []) (record { architecture = arch; os = os; variant = [] })
        (rw (known_arch-matches arch known_arch) refl) refl
        (rw (system_fixed, known) (arch_read arch [] known_arch normal _))

  -- What is printed of a platform, by the parts that it has.
  printed_variant :
      (arch variant : Str)
      → str_eq arch [] ≡ false
      → str_eq variant [] ≡ false
      → to_string (some (record { architecture = arch; os = os; variant = variant }))
        ≡ join (os ∷ arch ∷ variant ∷ []) slash
  unfolding to_string
  printed_variant arch variant ha hv = rw (system_some, ha, hv) refl

  printed_arch :
      (arch : Str)
      → str_eq arch [] ≡ false
      → to_string (some (record { architecture = arch; os = os; variant = [] }))
        ≡ join (os ∷ arch ∷ []) slash
  unfolding to_string str_eq
  printed_arch arch ha = rw (system_some, ha) refl

  printed_system :
      to_string (some (record { architecture = []; os = os; variant = [] })) ≡ join (os ∷ []) slash
  unfolding to_string str_eq
  printed_system = rw system_some refl

match_some : (s : Str) → matches_specifier s ≡ true → str_eq s [] ≡ false
unfolding matches_specifier str_eq
match_some [] h = cc
match_some (c ∷ s) h = refl

print_read :
    (goos os arch variant : Str)
    → is_known_os os ≡ true
    → IsRead (record { architecture = arch; os = os; variant = variant })
    → new_platform goos
        (to_string (some (record { architecture = arch; os = os; variant = variant })))
      ≡ ok (record { architecture = arch; os = os; variant = variant })
print_read goos os arch variant known h = elim h.arch [
  | inl (no_arch, no_variant) ↦
      rw (no_arch, no_variant, printed_system goos os known) (print_system goos os known)
  | inr (known_arch, normal) ↦ elim normal.optional [
    | inl no_variant ↦
        rw
          (
            no_variant,
            printed_arch goos os known arch (match_some arch (known_arch-matches arch known_arch)),
          )
          (print_arch goos os known arch known_arch (rw no_variant at normal))
    | inr some_variant ↦
        rw
          (printed_variant goos os known arch variant
            (match_some arch (known_arch-matches arch known_arch))
            (match_some variant some_variant))
          (print_variant goos os known arch variant known_arch normal some_variant)
  ]
]

-- Printing a platform that was read from a specifier, and reading the text again, gives the same platform.
pub new_platform-to_string :
    (goos specifier : Str) (p : Platform)
    → new_platform goos specifier ≡ ok p
    → new_platform goos (to_string (some p)) ≡ ok p
unfolding new_platform
new_platform-to_string goos specifier p h =
    let names = subst Names h (named (parse goos specifier) (parse-Reads goos specifier)) in
    print_read goos p.os p.architecture p.variant names.1 names.0
