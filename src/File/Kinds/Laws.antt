-- ===== src/File/Kinds/Laws.antt =====
-- The kinds of pkg/file/type.go against the bits of a mode.
use stereoscope.File.Kinds.{
  regular, irregular, is_set, is_regular, type_from_mode, mode_irregular, mode_symlink,
}
use stereoscope.Prelude.{ℕ, true, ◌≡◌, ◌↔◌, arith, ◌&&◌, not}

-- A mode is called irregular exactly if its irregular bit is set and its symlink bit is not.
pub irregular_iff :
    (mode : ℕ)
    → (type_from_mode mode ≡ irregular)
      ↔ (((is_set mode mode_irregular && not (is_set mode mode_symlink))) ≡ true)
unfolding type_from_mode is_regular
irregular_iff mode = ground arith

-- A mode is called regular exactly if Go calls it regular.
pub regular_iff : (mode : ℕ) → (type_from_mode mode ≡ regular) ↔ (is_regular mode ≡ true)
unfolding type_from_mode is_regular
regular_iff mode = ground arith
