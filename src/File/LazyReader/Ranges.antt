-- ===== src/File/LazyReader/Ranges.antt =====
-- Ranges of bytes, for the reads of pkg/file/lazy_bounded_read_closer.go.
use stereoscope.Prelude.{
  ℕ, zero, suc, ◌+◌, ◌≤◌, List, [], ◌∷◌, ◌++◌, length, take, drop, ◌≡◌, refl, arith,
}

zero_add : (n : ℕ) → 0 + n ≡ n
zero_add n = omega arith

suc_add : (n m : ℕ) → suc n + m ≡ suc (n + m)
suc_add n m = omega arith

module _ {ℓ} {A : Type ℓ} where
  length-take : (n : ℕ) (xs : List A) → n ≤ length xs → length (take n xs) ≡ n
  length-take zero xs h = refl
  length-take (suc n) [] h = absurd (omega arith)
  length-take (suc n) (x ∷ xs) h = omega (arith, length-take n xs (omega arith))

  pub length-take-drop :
      (n o : ℕ) (xs : List A) → o + n ≤ length xs → length (take n (drop o xs)) ≡ n
  length-take-drop n zero xs h = length-take n xs (omega arith)
  length-take-drop n (suc o) [] h = absurd (omega arith)
  length-take-drop n (suc o) (x ∷ xs) h = length-take-drop n o xs (omega arith)

  pub take-append-drop : (n m : ℕ) (xs : List A) → take n xs ++ take m (drop n xs) ≡ take (n + m) xs
  take-append-drop zero m xs = rw (zero_add m) refl
  take-append-drop (suc n) zero [] = rw (suc_add n 0) refl
  take-append-drop (suc n) (suc m) [] = rw (suc_add n (suc m)) refl
  take-append-drop (suc n) m (x ∷ xs) = rw (suc_add n m, take-append-drop n m xs) refl

  pub drop-drop : (n o : ℕ) (xs : List A) → drop n (drop o xs) ≡ drop (o + n) xs
  drop-drop n zero xs = rw (zero_add n) refl
  drop-drop zero (suc o) [] = rw (suc_add o 0) refl
  drop-drop (suc n) (suc o) [] = rw (suc_add o (suc n)) refl
  drop-drop n (suc o) (x ∷ xs) = rw (suc_add o n) (drop-drop n o xs)
