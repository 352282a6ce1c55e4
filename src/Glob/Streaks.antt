-- ===== src/Glob/Streaks.antt =====
-- `removeRedundantCountGlob` of pkg/filetree/glob_parser.go against the lengths of streaks.
use mathlib.Core.Path.{subst}
use stereoscope.Glob.Clean.{cut_streaks, remove_redundant_count_glob}
use stereoscope.Prelude.{
  ℕ, suc, [], ◌∷◌, Bool, true, ◌&&◌, ◌≡◌, refl, arith, ◌==◌, ltb, leb, Str, if◌then◌else◌,
}

-- Whether each streak of the byte has at most so many, of which the first one has had some already.
abbrev pub within : ℕ → ℕ → ℕ → Str → Bool
within val count streak [] = true
within val count streak (c ∷ s) =
    let more = within val count (suc streak) s in
    let rest = within val count 0 s in if c == val then ltb streak count && more else rest

abbrev cap : ℕ → ℕ → ℕ
cap streak count = if leb streak count then streak else count

cap_zero : (count : ℕ) → cap 0 count ≡ 0
cap_zero count = ground arith

cut_streaks-within :
    (val count streak : ℕ) (s : Str)
    → within val count (cap streak count) (cut_streaks val count streak s) ≡ true
unfolding cut_streaks
cut_streaks-within val count streak [] = refl
cut_streaks-within val count streak (c ∷ s) =
    ground (arith, cut_streaks-within val count (suc streak) s, cut_streaks-within val count 0 s)

cut_streaks-same :
    (val count streak : ℕ) (s : Str)
    → within val count streak s ≡ true
    → cut_streaks val count streak s ≡ s
unfolding cut_streaks
cut_streaks-same val count streak [] h = refl
cut_streaks-same val count streak (c ∷ s) h =
    ground (arith, cut_streaks-same val count (suc streak) s, cut_streaks-same val count 0 s)

-- After `removeRedundantCountGlob` each streak of the byte has at most as many as the count.
pub remove_redundant_count_glob-within :
    (glob : Str) (val count : ℕ)
    → within val count 0 (remove_redundant_count_glob glob val count) ≡ true
unfolding remove_redundant_count_glob
remove_redundant_count_glob-within glob val count =
    subst (λ k. within val count k (cut_streaks val count 0 glob) ≡ true) (cap_zero count)
      (cut_streaks-within val count 0 glob)

-- `removeRedundantCountGlob` changes nothing in a glob whose streaks are short enough.
pub remove_redundant_count_glob-same :
    (glob : Str) (val count : ℕ)
    → within val count 0 glob ≡ true
    → remove_redundant_count_glob glob val count ≡ glob
unfolding remove_redundant_count_glob
remove_redundant_count_glob-same glob val count h = cut_streaks-same val count 0 glob h
