-- ===== src/Image/Platform.antt =====
-- pkg/image/platform.go: the specifiers of platforms. `goos` is the operating system of the running program.
pub mod Normal
pub mod Parts
pub mod RoundTrip
use stereoscope.Errors.{Result, ok, err, ◌>>=◌, invalid_argument}
use stereoscope.Go.Maps.{elem}
use stereoscope.Go.Strings.{slash, split, join, contains}
use stereoscope.Prelude.{
  ℕ, ◌+◌, List, [], ◌∷◌, ◌++◌, map, Option, none, some, Bool, true, false, not, ◌&&◌, ◌||◌, Str,
  str_eq, codes, byte_string_eq, ◌==◌, leb, if◌then◌else◌,
}

-- `Platform`
pub record Platform : Type 0 where
  pub architecture : Str
  pub os : Str
  pub variant : Str

-- `strings.ToLower`, on ASCII
unfoldable pub lower_byte : ℕ → ℕ
lower_byte c = if leb b'A' c && leb c b'Z' then c + 32 else c

unfoldable pub to_lower : Str → Str
unfolding lower_byte
to_lower [] = []
to_lower (c ∷ s) = lower_byte c ∷ to_lower s

-- The class of `specifierRe`.
unfoldable pub specifier_byte : ℕ → Bool
specifier_byte c =
    leb b'A' c && leb c b'Z'
    || leb b'a' c && leb c b'z'
    || leb b'0' c && leb c b'9'
    || c == b'_'
    || c == b'-'

unfoldable pub all_bytes : (ℕ → Bool) → Str → Bool
all_bytes p [] = true
all_bytes p (c ∷ s) = p c && all_bytes p s

-- `specifierRe.MatchString`
unfoldable pub matches_specifier : Str → Bool
unfolding all_bytes specifier_byte
matches_specifier [] = false
matches_specifier (c ∷ s) = all_bytes specifier_byte (c ∷ s)

abbrev pub known_systems : List Str
known_systems = map codes (
    "aix" ∷ "android" ∷ "darwin" ∷ "dragonfly" ∷ "freebsd" ∷ "hurd" ∷ "illumos" ∷ "js" ∷ "linux"
    ∷ "nacl" ∷ "netbsd" ∷ "openbsd" ∷ "plan9" ∷ "solaris" ∷ "windows" ∷ "zos" ∷ [])

-- `isKnownOS`
unfoldable pub is_known_os : Str → Bool
unfolding elem
is_known_os os = elem os known_systems

abbrev pub known_architectures : List Str
known_architectures = map codes (
    "386" ∷ "amd64" ∷ "amd64p32" ∷ "arm" ∷ "armbe" ∷ "arm64" ∷ "arm64be" ∷ "ppc64" ∷ "ppc64le"
    ∷ "mips" ∷ "mipsle" ∷ "mips64" ∷ "mips64le" ∷ "mips64p32" ∷ "mips64p32le" ∷ "ppc" ∷ "riscv"
    ∷ "riscv64" ∷ "s390" ∷ "s390x" ∷ "sparc" ∷ "sparc64" ∷ "wasm" ∷ [])

-- `isKnownArch`
unfoldable pub is_known_arch : Str → Bool
unfolding elem
is_known_arch arch = elem arch known_architectures

-- The variant of `arm64`.
unfoldable pub arm64_variant : Str → Str
arm64_variant v = if str_eq v (codes "8") || str_eq v (codes "v8") then [] else v

-- The variant of `arm`.
unfoldable pub arm_variant : Str → Str
arm_variant v =
    if str_eq v [] || str_eq v (codes "7")
    then codes "v7"
    else if str_eq v (codes "5") || str_eq v (codes "6") || str_eq v (codes "8")
    then b'v' ∷ v
    else v

-- `normalizeArch`, after the change to lower case
unfoldable pub normalize_lower : Str → Str → Str × Str
unfolding arm64_variant arm_variant
normalize_lower arch variant =
    if str_eq arch (codes "i386")
    then (codes "386", [])
    else if str_eq arch (codes "x86_64") || str_eq arch (codes "x86-64")
    then (codes "amd64", [])
    else if str_eq arch (codes "aarch64") || str_eq arch (codes "arm64")
    then (codes "arm64", arm64_variant variant)
    else if str_eq arch (codes "armhf")
    then (codes "arm", codes "v7")
    else if str_eq arch (codes "armel")
    then (codes "arm", codes "v6")
    else if str_eq arch (codes "arm")
    then (arch, arm_variant variant)
    else (arch, variant)

-- `normalizeArch`
unfoldable pub normalize_arch : Str → Str → Str × Str
unfolding to_lower normalize_lower
normalize_arch arch variant = normalize_lower (to_lower arch) (to_lower variant)

-- A platform of a known architecture, and else the error.
unfoldable pub with_arch : Str → Str → Str × Str → Result Platform
with_arch specifier os (arch, variant) =
    if is_known_arch arch
    then ok (record { architecture = arch; os = os; variant = variant })
    else err (invalid_argument specifier)

-- `String`
unfoldable pub to_string : Option Platform → Str
to_string none = []
to_string (some p) =
    join
      ((if not (str_eq p.os []) then p.os ∷ [] else [])
        ++ ((if not (str_eq p.architecture []) then p.architecture ∷ [] else [])
            ++ (if not (str_eq p.variant []) then p.variant ∷ [] else [])))
      slash

unfoldable pub all_match : List Str → Bool
all_match [] = true
all_match (p ∷ ps) = matches_specifier p && all_match ps

module _ (goos : Str) where
  -- `normalizeOS`
  unfoldable pub normalize_os : Str → Str
  unfolding to_lower
  normalize_os os =
      if str_eq os []
      then goos
      else if str_eq (to_lower os) (codes "macos")
      then codes "darwin"
      else to_lower os

  -- The cases of `parse` by the number of parts.
  unfoldable pub parse_parts : Str → List Str → Result Platform
  unfolding normalize_os normalize_arch with_arch is_known_os
  parse_parts specifier (a ∷ []) =
      if is_known_os (normalize_os a)
      then ok (record { architecture = []; os = normalize_os a; variant = [] })
      else with_arch specifier [] (normalize_arch a [])
  parse_parts specifier (a ∷ b ∷ []) =
      if is_known_os (normalize_os a)
      then with_arch specifier (normalize_os a) (normalize_arch b [])
      else with_arch specifier [] (normalize_arch a b)
  parse_parts specifier (a ∷ b ∷ c ∷ []) =
      with_arch specifier (if is_known_os (normalize_os a) then normalize_os a else [])
        (normalize_arch b c)
  parse_parts specifier _ = err (invalid_argument specifier)

  -- `parse`
  unfoldable pub parse : Str → Result Platform
  unfolding parse_parts all_match matches_specifier contains split
  parse specifier =
      if contains specifier (codes "*")
      then err (invalid_argument specifier)
      else if not (all_match (split specifier slash))
      then err (invalid_argument specifier)
      else parse_parts specifier (split specifier slash)

  -- `NewPlatform`
  unfoldable pub new_platform : Str → Result Platform
  unfolding parse
  new_platform specifier =
      parse specifier >>= λ p. ok (if str_eq p.os [] then record p { os = codes "linux" } else p)
