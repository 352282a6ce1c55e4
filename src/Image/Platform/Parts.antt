-- ===== src/Image/Platform/Parts.antt =====
-- The parts of a specifier of pkg/image/platform.go: what `parse` splits, and the names that it knows.
use stereoscope.Go.Maps.{elem}
use stereoscope.Go.Strings.{slash, split, join, contains, has_prefix, Lacks, split-join}
use stereoscope.Image.Platform.{
  specifier_byte, all_bytes, matches_specifier, all_match, known_systems, known_architectures,
  is_known_os, is_known_arch, normalize_os, parse_parts, parse,
}
use stereoscope.Prelude.{
  ℕ, List, [], ◌∷◌, All, All-append, Bool, true, false, not, ◌&&◌, Str, str_eq, str_eq_iff, codes,
  byte_string_eq, Bool-cases, ◌≡◌, ◌≢◌, refl, ap, inl, inr, arith,
}

-- A test that all members of a list pass.
passes : (Str → Bool) → List Str → Bool
passes test [] = true
passes test (x ∷ xs) = test x && passes test xs

passes-elem :
    (test : Str → Bool) (xs : List Str) (x : Str)
    → passes test xs ≡ true
    → elem x xs ≡ true
    → test x ≡ true
unfolding passes elem
passes-elem test [] x h m = cc
passes-elem test (y ∷ xs) x h m = elim (Bool-cases (str_eq y x)) [
  | inl e ↦ rw (← ((str_eq_iff y x).0 e)) (ground arith)
  | inr e ↦ passes-elem test xs x (ground arith) (ground arith)
]

-- The systems that are known are read as themselves.
unfoldable pub fixed_system : Str → Str → Bool
fixed_system goos os =
    matches_specifier os && str_eq (normalize_os goos os) os && not (str_eq os [])

pub known_os-fixed : (goos os : Str) → is_known_os os ≡ true → fixed_system goos os ≡ true
unfolding is_known_os
known_os-fixed goos os h = passes-elem (fixed_system goos) known_systems os all h
  where
    all : passes (fixed_system goos) known_systems ≡ true
    all = unfold passes fixed_system matches_specifier normalize_os str_eq in refl

pub known_arch-matches : (arch : Str) → is_known_arch arch ≡ true → matches_specifier arch ≡ true
unfolding is_known_arch
known_arch-matches arch h = passes-elem matches_specifier known_architectures arch all h
  where
    all : passes matches_specifier known_architectures ≡ true
    all = unfold passes matches_specifier in refl

-- A part of a specifier holds neither a slash nor a star.
bytes-Lacks :
    (s : Str) (b : ℕ) → specifier_byte b ≡ false → all_bytes specifier_byte s ≡ true → Lacks b s
unfolding all_bytes
bytes-Lacks [] b h e = tt
bytes-Lacks (c ∷ s) b h e = (λ p. cc (ap specifier_byte p), bytes-Lacks s b h (ground arith))

part-Lacks : (s : Str) (b : ℕ) → specifier_byte b ≡ false → matches_specifier s ≡ true → Lacks b s
unfolding matches_specifier
part-Lacks [] b h e = tt
part-Lacks (c ∷ s) b h e = bytes-Lacks (c ∷ s) b h e

parts-Lacks :
    (ps : List Str) (b : ℕ) → specifier_byte b ≡ false → all_match ps ≡ true → All (Lacks b) ps
unfolding all_match
parts-Lacks [] b h e = tt
parts-Lacks (p ∷ ps) b h e = (part-Lacks p b h (ground arith), parts-Lacks ps b h (ground arith))

join-Lacks : (ps : List Str) (b : ℕ) → slash ≢ b → All (Lacks b) ps → Lacks b (join ps slash)
unfolding join
join-Lacks [] b ne h = tt
join-Lacks (p ∷ []) b ne h = h.0
join-Lacks (p ∷ q ∷ ps) b ne h =
    All-append (λ c. c ≢ b) p (slash ∷ join (q ∷ ps) slash) h.0 (ne, join-Lacks (q ∷ ps) b ne h.1)

contains-Lacks : (s : Str) (b : ℕ) → Lacks b s → contains s (b ∷ []) ≡ false
unfolding contains has_prefix
contains-Lacks [] b h = refl
contains-Lacks (c ∷ s) b h = ground (arith, contains-Lacks s b h.1, h.0)

-- A specifier whose parts match is read by its parts.
pub parse-join :
    (goos : Str) (ps : List Str)
    → ps ≢ []
    → all_match ps ≡ true
    → parse goos (join ps slash) ≡ parse_parts goos (join ps slash) ps
unfolding parse
parse-join goos ps ne h = rw (no_star, back, h) refl
  where
    no_star : contains (join ps slash) (codes "*") ≡ false
    no_star = contains-Lacks (join ps slash) b'*' (
        join-Lacks ps b'*' (λ e. absurd (omega arith))
          (parts-Lacks ps b'*' (unfold specifier_byte in refl) h))

    back : split (join ps slash) slash ≡ ps
    back = split-join ps slash ne (parts-Lacks ps slash (unfold specifier_byte in refl) h)
