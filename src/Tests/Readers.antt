-- ===== src/Tests/Readers.antt =====
-- Runs of the readers of pkg/file.
use stereoscope.Errors.{Result, ok, end_of_file, closed_file, Act}
use stereoscope.File.LazyReader.{
  got_nothing, LazyReader, new_lazy_bounded_read_closer, read, seek, seek_start, forward,
}
use stereoscope.File.LazyReader.Drains.{read_all, read_all_lem, read-seek-read_all}
use stereoscope.File.Tar.{TarStep, entry}
use stereoscope.File.Tar.Untar.{
  FileSystem, KeepsInside, untar_to_directory, untar_to_directory-keeps,
}
use stereoscope.Go.Strings.{has_prefix}
use stereoscope.Prelude.{
  List, [], ◌∷◌, All, none, some, true, false, Str, codes, ◌≡◌, refl, arith, length,
}

-- A file system with one file.
only_file : Str → Result Str
only_file p = ok (codes "abcdef")

abbrev middle : LazyReader
middle = record {
  path = codes "layer.tar";
  file = some (record { contents = codes "abcdef"; offset = 0; closed = true });
  reader = some (record { base = 2; offset = 5; limit = 5 });
  start = 2;
  size = 3;
}

read_all_example :
    read_all only_file 5 2 (new_lazy_bounded_read_closer (codes "layer.tar") 2 3) []
    ≡ ((codes "cde", some end_of_file), middle)
unfolding only_file
read_all_example =
    read_all_lem only_file (codes "layer.tar") (codes "abcdef") 2 3 (omega arith) refl (omega arith)
      1

read-seek-read_all_example :
    (read only_file 2
      (seek only_file
        (forward 0)
        seek_start
        (read_all only_file 5 2 (new_lazy_bounded_read_closer (codes "layer.tar") 2 3) []).1).1).0
    ≡ got_nothing closed_file
unfolding only_file
read-seek-read_all_example =
    read-seek-read_all only_file (codes "layer.tar") (codes "abcdef") 2 3 (omega arith) refl
      (omega arith) 1 (omega arith)

-- A file system that notes the paths of its operations.
abbrev Noted : Type 0
Noted = List Str

abbrev note_path : Str → Act Noted (Unit {0})
note_path p s = (ok tt, p ∷ s)

abbrev noting : FileSystem Noted
noting = record {
  stat = λ p s. false;
  mkdir_all = note_path;
  open_file = λ p mode. note_path p;
  copy = λ p bytes s. ((length bytes, none), p ∷ s);
  close = λ p s. p ∷ s;
}

abbrev BelowOut : Noted → Type 0
BelowOut = All (λ p. has_prefix p (codes "/out/") ≡ true)

noting-KeepsInside : KeepsInside noting (codes "/out") BelowOut
noting-KeepsInside = record {
  mkdir_all = λ t s inside h. (inside.below, h);
  open_file = λ t mode s inside h. (inside.below, h);
  copy = λ t bytes s inside h. (inside.below, h);
  close = λ t s inside h. (inside.below, h);
}

abbrev evil_archive : List TarStep
evil_archive =
    entry (record { name = codes "a"; type_flag = b'0'; link_name = []; uid = 0; gid = 0 }) 1 420
      (codes "x") (codes "x") (ok 512)
    ∷ entry (record { name = codes "../b"; type_flag = b'0'; link_name = []; uid = 0; gid = 0 }) 1
        420 (codes "y") (codes "y") (ok 1536)
    ∷ []

untar_to_directory-keeps_example :
    BelowOut (untar_to_directory noting (codes "/out") evil_archive []).1
untar_to_directory-keeps_example =
    untar_to_directory-keeps noting (codes "out") BelowOut noting-KeepsInside evil_archive [] tt
