-- ===== src/File/Kinds.antt =====
-- pkg/file/type.go: the kinds of file, and where they come from.
pub mod Laws
use stereoscope.Prelude.{
  ℕ, List, [], ◌∷◌, Bool, true, false, ◌&&◌, not, ◌≡◌, refl, ◌⊎◌, arith, ◌==◌, ◌%◌, ◌^◌,
  if◌then◌else◌, Eq, ◌↔◌,
}
use Prim.Native.Nat.{◌/◌}

-- `Type`
pub data FileType : Type 0 where
  regular hard_link sym_link character_device block_device directory fifo socket irregular :
      FileType

-- `AllTypes`
unfoldable pub all_types : List FileType
all_types =
    regular ∷ hard_link ∷ sym_link ∷ character_device ∷ block_device ∷ directory ∷ fifo ∷ socket
    ∷ irregular ∷ []

-- The `iota` of a kind.
abbrev pub type_number : FileType → ℕ
type_number regular = 0
type_number hard_link = 1
type_number sym_link = 2
type_number character_device = 3
type_number block_device = 4
type_number directory = 5
type_number fifo = 6
type_number socket = 7
type_number irregular = 8

abbrev pub type_eq : FileType → FileType → Bool
type_eq a b = type_number a == type_number b

pub type_eq_iff : (a b : FileType) → (type_eq a b ≡ true) ↔ (a ≡ b)
type_eq_iff a b = ground arith

instance abbrev pub file_type_eq : Eq FileType
file_type_eq = record { beq = type_eq; beq_iff = type_eq_iff }

-- `TypeFromTarType`, by the flags of archive/tar: '0' and NUL are regular files.
unfoldable pub type_from_tar_type : ℕ → FileType
type_from_tar_type ty =
    if ty == b'0'
    then regular
    else if ty == 0
    then regular
    else if ty == b'1'
    then hard_link
    else if ty == b'2'
    then sym_link
    else if ty == b'3'
    then character_device
    else if ty == b'4'
    then block_device
    else if ty == b'5'
    then directory
    else if ty == b'6'
    then fifo
    else irregular

-- The bits of `os.FileMode`.
abbrev pub mode_dir : ℕ
mode_dir = 31

abbrev pub mode_symlink : ℕ
mode_symlink = 27

abbrev pub mode_device : ℕ
mode_device = 26

abbrev pub mode_named_pipe : ℕ
mode_named_pipe = 25

abbrev pub mode_socket : ℕ
mode_socket = 24

abbrev pub mode_char_device : ℕ
mode_char_device = 21

abbrev pub mode_irregular : ℕ
mode_irregular = 19

-- `isSet`, for a field of one bit
unfoldable pub is_set : ℕ → ℕ → Bool
is_set mode bit = mode / 2 ^ bit % 2 == 1

-- `mode.IsRegular()`: no bit of `os.ModeType` is set.
unfoldable pub is_regular : ℕ → Bool
is_regular mode =
    not (is_set mode mode_dir)
    && not (is_set mode mode_symlink)
    && not (is_set mode mode_named_pipe)
    && not (is_set mode mode_socket)
    && not (is_set mode mode_device)
    && not (is_set mode mode_char_device)
    && not (is_set mode mode_irregular)

-- `TypeFromMode`
unfoldable pub type_from_mode : ℕ → FileType
type_from_mode mode =
    if is_set mode mode_symlink
    then sym_link
    else if is_set mode mode_irregular
    then irregular
    else if is_set mode mode_char_device
    then character_device
    else if is_set mode mode_device
    then block_device
    else if is_set mode mode_named_pipe
    then fifo
    else if is_set mode mode_socket
    then socket
    else if is_set mode mode_dir
    then directory
    else if is_regular mode
    then regular
    else irregular
