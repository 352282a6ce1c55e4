-- ===== src/Glob/Clean.antt =====
-- `cleanGlob` of pkg/filetree/glob_parser.go and its passes. The source walks runes: over UTF-8 text the
-- passes act alike on bytes, for they look for ASCII alone.
use stereoscope.Go.Strings.{slash, trim_space, trim_right, trim_prefix, has_prefix, replace_all}
use stereoscope.Prelude.{
  ℕ, zero, suc, [], ◌∷◌, ◌++◌, Bool, true, false, ◌&&◌, ◌||◌, Str, codes, ◌==◌, ltb, if◌then◌else◌,
  length,
}

abbrev pub star : ℕ
star = b'*'

-- The loop of `removeRedundantCountGlob`, with the length of the streak so far.
unfoldable pub cut_streaks : ℕ → ℕ → ℕ → Str → Str
cut_streaks val count streak [] = []
cut_streaks val count streak (c ∷ s) =
    let counted = cut_streaks val count (suc streak) s in
    let other = c ∷ cut_streaks val count 0 s in
    if c == val then (if ltb count (suc streak) then counted else c ∷ counted) else other

-- `removeRedundantCountGlob`
unfoldable pub remove_redundant_count_glob : Str → ℕ → ℕ → Str
unfolding cut_streaks
remove_redundant_count_glob glob val count = cut_streaks val count 0 glob

stars : ℕ → Str
stars zero = []
stars (suc n) = star ∷ stars n

-- What stands for the buffered asterisks: all of them within a recursive streak, one elsewhere.
flush : ℕ → Bool → Str
unfolding stars
flush zero streak = []
flush (suc n) true = stars (suc n)
flush (suc n) false = star ∷ []

-- The loop of `simplifyMultipleGlobAsterisks`: whether this is the first character, the number of
-- asterisks in the buffer, and whether they may be a recursive streak.
unfoldable pub simplify_asterisks : Bool → ℕ → Bool → Str → Str
unfolding flush
simplify_asterisks first n streak [] = flush n streak
simplify_asterisks first n streak (c ∷ s) =
    let buffered = simplify_asterisks false (suc n) (first || streak) s in
    let at_slash = flush n streak ++ (c ∷ simplify_asterisks false 0 true s) in
    let elsewhere = flush n false ++ (c ∷ simplify_asterisks false 0 false s) in
    if c == star then buffered else if c == slash then at_slash else elsewhere

-- `simplifyMultipleGlobAsterisks`
unfoldable pub simplify_multiple_glob_asterisks : Str → Str
unfolding simplify_asterisks
simplify_multiple_glob_asterisks glob = simplify_asterisks true 0 false glob

opening : Bool → Str
opening true = []
opening false = codes "**/"

-- `globRecursionRightPattern.ReplaceAllString(glob, "**/")`: the pattern `(\*\*/?)+`, where the flag
-- says that a match is going on.
unfoldable pub collapse_recursion : Bool → Str → Str
unfolding opening
collapse_recursion going [] = []
collapse_recursion going (c ∷ []) = c ∷ []
collapse_recursion going (c ∷ d ∷ []) =
    if (c == star) && (d == star) then opening going else c ∷ collapse_recursion false (d ∷ [])
collapse_recursion going (c ∷ d ∷ e ∷ s) =
    let past_slash = opening going ++ collapse_recursion true s in
    let past = opening going ++ collapse_recursion true (e ∷ s) in
    let other = c ∷ collapse_recursion false (d ∷ e ∷ s) in
    if (c == star) && (d == star) then (if e == slash then past_slash else past) else other

unfoldable pub trim_slashes : Str → Str
unfolding trim_right
trim_slashes glob = if ltb 1 (length glob) then trim_right glob (slash ∷ []) else glob

-- `simplifyGlobRecursion`
unfoldable pub simplify_glob_recursion : Str → Str
unfolding collapse_recursion replace_all has_prefix trim_prefix trim_slashes
simplify_glob_recursion glob =
    let g = replace_all (collapse_recursion false glob) (codes "//") (slash ∷ []) in
    trim_slashes (if has_prefix g (codes "/**/") then trim_prefix g (slash ∷ []) else g)

-- `cleanGlob`
unfoldable pub clean_glob : Str → Str
unfolding trim_space remove_redundant_count_glob trim_slashes simplify_multiple_glob_asterisks
    simplify_glob_recursion
clean_glob glob =
    let g = remove_redundant_count_glob (trim_space glob) slash 1 in
    let g2 = remove_redundant_count_glob g star 2 in
    simplify_glob_recursion (simplify_multiple_glob_asterisks (trim_slashes g2))
