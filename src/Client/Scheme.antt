-- ===== src/Client/Scheme.antt =====
-- `ExtractSchemeSource` of deprecated.go.
use stereoscope.Client.{cut_scheme, extract_scheme_source}
use stereoscope.Go.Maps.{elem}
use stereoscope.Go.Strings.{Lacks, trim_space}
use stereoscope.Image.Platform.{to_lower}
use stereoscope.Prelude.{
  List, [], ◌∷◌, ◌++◌, Option, none, some, true, Str, ◌==◌, ==_iff, byte_string_eq, ◌≡◌, ◌≢◌, refl,
  ap, ◌⊎◌, inl, inr, arith, Bool-cases, if◌then◌else◌, if-keeps,
}

-- The parts around the first colon.
abbrev pub SplitsAt : Str → Str → Str → Type 0
SplitsAt input hint rest = (input ≡ hint ++ b':' ∷ rest) × Lacks b':' hint

abbrev Cut : Str → Option (Str × Str) → Type 0
Cut s none = Lacks b':' s
Cut s (some (p, q)) = SplitsAt s p q

cut_scheme-Cut : (s : Str) → Cut s (cut_scheme s)
unfolding cut_scheme
cut_scheme-Cut [] = tt
cut_scheme-Cut (c ∷ s) =
    if-keeps (Cut (c ∷ s)) (c == b':') _ _ (λ e. (ap (λ d. d ∷ s) ((==_iff c b':').0 e), tt))
      (λ e. later (cut_scheme s) (λ same. cc (rw ((==_iff c b':').1 same) at e)) (cut_scheme-Cut s))
  where
    later :
        (x : Option (Str × Str))
        → c ≢ b':'
        → Cut s x
        → Cut (c ∷ s) (elim x [ none ↦ none | some (p, q) ↦ some (c ∷ p, q) ])
    later none other h = (other, h)
    later (some (p, q)) other h = (ap (λ t. c ∷ t) h.0, (other, h.1))

cut_scheme-append :
    (hint rest : Str) → Lacks b':' hint → cut_scheme (hint ++ b':' ∷ rest) ≡ some (hint, rest)
unfolding cut_scheme
cut_scheme-append [] rest h = refl
cut_scheme-append (c ∷ hint) rest h =
    ground (arith, ==_iff c b':', h.0, cut_scheme-append hint rest h.1)

-- What `ExtractSchemeSource` returns: no source and the whole input, or a source that is known, which is the text
-- before the first colon, in lower case and without blanks around it, and the rest behind that colon.
pub extract_scheme_source-SplitsAt :
    (input : Str) (sources : List Str)
    → (extract_scheme_source input sources ≡ ([], input))
      ⊎ ((hint rest : Str) × SplitsAt input hint rest
          × (elem (trim_space (to_lower hint)) sources ≡ true)
          × (extract_scheme_source input sources ≡ (trim_space (to_lower hint), rest)))
unfolding extract_scheme_source
extract_scheme_source-SplitsAt input sources = go (cut_scheme input) (cut_scheme-Cut input)
  where
    result : Option (Str × Str) → Str × Str
    result x = elim x [
      | none ↦ ([], input)
      | some (hint, rest) ↦
          if elem (trim_space (to_lower hint)) sources
          then (trim_space (to_lower hint), rest)
          else ([], input)
    ]

    go :
        (x : Option (Str × Str))
        → Cut input x
        → (result x ≡ ([], input))
          ⊎ ((hint rest : Str) × SplitsAt input hint rest
              × (elem (trim_space (to_lower hint)) sources ≡ true)
              × (result x ≡ (trim_space (to_lower hint), rest)))
    go none h = inl refl
    go (some (hint, rest)) h = elim (Bool-cases (elem (trim_space (to_lower hint)) sources)) [
      | inl known ↦ inr (hint, rest, h, known, rw known refl)
      | inr unknown ↦ inl (rw unknown refl)
    ]

-- An input that was put together from a hint without a colon, a colon and a location is taken apart again,
-- if the hint is a known source up to its case and to blanks around it.
pub extract_scheme_source-append :
    (hint location : Str) (sources : List Str)
    → Lacks b':' hint
    → elem (trim_space (to_lower hint)) sources ≡ true
    → extract_scheme_source (hint ++ b':' ∷ location) sources
      ≡ (trim_space (to_lower hint), location)
unfolding extract_scheme_source
extract_scheme_source-append hint location sources lacks known =
    ground (arith, cut_scheme-append hint location lacks, known)
