-- ===== src/Tests/Paths.antt =====
-- Runs of pkg/file on small inputs.
use stereoscope.File.Ancestors.{new_metadata-IsCanonical, ancestors, constituent_paths_lem}
use stereoscope.File.CountSet.{PathCountSet, add_path}
use stereoscope.File.Metadata.{Header, new_metadata}
use stereoscope.File.Paths.{FilePath, is_absolute_path, normalize, constituent_paths}
use stereoscope.File.Paths.Canonical.{IsElement, IsCanonical, path_of, normalize-IsCanonical}
use stereoscope.File.Sets
use stereoscope.File.Sets.{IdSet}
use stereoscope.Go.Strings.{has_prefix}
use stereoscope.Prelude.{ℕ, [], ◌∷◌, true, ◌≡◌, refl, codes, byte_string_eq, nat_eq, arith}

abbrev crooked : FilePath
crooked = codes "/usr//./lib/../bin/"

crooked-IsAbsolute : is_absolute_path crooked ≡ true
unfolding is_absolute_path has_prefix
crooked-IsAbsolute = refl

normalize-IsCanonical_example : IsCanonical (normalize crooked)
normalize-IsCanonical_example = normalize-IsCanonical crooked crooked-IsAbsolute

abbrev escaping : Header
escaping = record {
  name = codes "../../etc/passwd";
  type_flag = 48;
  link_name = [];
  uid = 0;
  gid = 0;
}

new_metadata-IsCanonical_example :
    IsCanonical (new_metadata escaping []).path
    × (normalize (new_metadata escaping []).path ≡ (new_metadata escaping []).path)
new_metadata-IsCanonical_example = new_metadata-IsCanonical escaping []

usr-IsElement : IsElement (codes "usr")
usr-IsElement = ground arith

bin-IsElement : IsElement (codes "bin")
bin-IsElement = ground arith

constituent_paths_example :
    constituent_paths (path_of (codes "usr" ∷ codes "bin" ∷ []))
    ≡ ancestors (codes "usr" ∷ codes "bin" ∷ []) 0 (codes "usr" ∷ codes "bin" ∷ [])
constituent_paths_example =
    constituent_paths_lem (codes "usr") (codes "bin" ∷ []) (usr-IsElement, (bin-IsElement, tt))

abbrev ids : IdSet ℕ
ids = Sets.add (3 ∷ 1 ∷ []) []

abbrev counts : PathCountSet
counts = add_path (codes "/a") (add_path (codes "/b") (add_path (codes "/a") []))
