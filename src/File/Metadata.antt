-- ===== src/File/Metadata.antt =====
-- `Metadata` of pkg/file/metadata.go, without its `fs.FileInfo`.
use stereoscope.File.Kinds.{FileType, type_from_tar_type}
use stereoscope.Go.Paths.{clean}
use stereoscope.Go.Strings.{slash}
use stereoscope.Prelude.{ℕ, ◌∷◌, Str}

pub record Metadata : Type 0 where
  pub path : Str
  pub link_destination : Str
  pub user_id : ℕ
  pub group_id : ℕ
  pub file_type : FileType
  pub mime_type : Str

-- What the source reads of a `tar.Header`.
pub record Header : Type 0 where
  pub name : Str
  pub type_flag : ℕ
  pub link_name : Str
  pub uid : ℕ
  pub gid : ℕ

-- `NewMetadata`; the MIME type is read from the contents by a library.
unfoldable pub new_metadata : Header → Str → Metadata
unfolding clean type_from_tar_type
new_metadata h mime_type = record {
  path = clean (slash ∷ h.name);
  link_destination = h.link_name;
  user_id = h.uid;
  group_id = h.gid;
  file_type = type_from_tar_type h.type_flag;
  mime_type = mime_type;
}
