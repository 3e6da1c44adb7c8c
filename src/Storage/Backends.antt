-- ===== src/Storage/Backends.antt =====
-- backends.py. The disk and Azure's client are a parameter: what they hold is a state, and their
-- calls are the operations on it.
use Prim.Native.String.{◌++◌ as str_append}
use campus_hr_b.Prelude.{
  ℕ, String, Bool, Option, none, some, List, ◌||◌, not, str_eq, if◌then◌else◌,
}
use campus_hr_b.Common.Uuid.{to_text}
use campus_hr_b.Session.{Exec, Result, ok, err, value_error, key_error, pure, or_raise, ◌>>=◌}
use campus_hr_b.Storage.FilePath.{suffix, lower, rstrip_slash}

-- fastapi's `UploadFile`
pub record UploadFile : Type 0 where
  pub filename : Option String
  pub content : List ℕ

-- pathlib on the disk, and Azure's container client. A file is named by its path as pathlib writes
-- it, and a blob by its container and its key.
pub record Host (F : Type 0) : Type 0 where
  pub exists_file : String → F → Bool
  pub read_bytes : String → F → Option (List ℕ)
  pub write_bytes : String → List ℕ → F → F
  -- `mkdir(parents=True, exist_ok=True)`
  pub mkdir : String → F → F
  pub create_container : String → F → F
  pub upload_blob : String → String → List ℕ → F → F
  pub blob_url : String → String → String

pub data StorageBackend : Type 0 where
  -- `base_path`, `public_base_url`
  local_storage_backend : String → String → StorageBackend
  -- `container`, of a client that `connection_string` opens
  azure_blob_storage_backend : String → String → StorageBackend

-- the keyword arguments of `create_storage_backend`
pub record Options : Type 0 where
  pub connection_string : Option String
  pub container : Option String
  pub local_path : Option String
  pub public_base_url : Option String

abbrev pub get_or : Option String → String → String
get_or none d = d
get_or (some s) d = s

-- `base / key`, of a base that does not end in a slash and a key that does not begin with one
abbrev pub join : String → String → String
join base key = str_append base (str_append "/" key)

-- `file.filename or "upload"`
abbrev pub name_or_upload : Option String → String
name_or_upload none = "upload"
name_or_upload (some s) = if str_eq s "" then "upload" else s

-- `f"{folder}/{uuid4()}{suffix}"`
unfoldable pub key_of : ℕ → UploadFile → String → String
unfolding suffix
key_of row_id file folder =
    join folder (str_append (to_text row_id) (suffix (name_or_upload file.filename)))

abbrev pub allowed_extensions : String → Bool
allowed_extensions s = str_eq s ".pdf" || str_eq s ".csv" || str_eq s ".doc" || str_eq s ".docx"

unfoldable pub validate_suffix : String → Result (Unit {0})
validate_suffix s =
    if not (allowed_extensions s)
    then err (value_error (str_append "File type " (str_append s " not allowed")))
    else ok tt

unfoldable pub validate_upload : UploadFile → Result (Unit {0})
unfolding validate_suffix suffix lower
validate_upload file = named file.filename
  where
    named : Option String → Result (Unit {0})
    named none = err (value_error "Filename is required")
    named (some filename) =
        if str_eq filename ""
        then err (value_error "Filename is required")
        else validate_suffix (lower (suffix filename))

module _ {F : Type 0} (host : Host F) where
  -- `LocalStorageBackend.__init__`
  unfoldable pub new_local : String → String → Exec F StorageBackend
  new_local base_path public_base_url f =
      (ok (local_storage_backend base_path (rstrip_slash public_base_url)), host.mkdir base_path f)

  -- `AzureBlobStorageBackend.__init__`
  unfoldable pub new_azure : String → String → Exec F StorageBackend
  new_azure connection_string container f = (
    ok (azure_blob_storage_backend connection_string container),
    host.create_container container f,
  )

  unfoldable pub create_storage_backend : String → Options → Exec F StorageBackend
  unfolding new_local new_azure
  create_storage_backend backend options =
      if str_eq backend "azure"
      then (do
        connection_string ← or_raise options.connection_string (key_error "connection_string")
        container ← or_raise options.container (key_error "container")
        new_azure connection_string container)
      else new_local (get_or options.local_path "/data/uploads")
          (get_or options.public_base_url "/files")

  -- `row_id` is the uuid4 in the key
  unfoldable pub save : ℕ → StorageBackend → UploadFile → String → Exec F String
  unfolding key_of
  save row_id (local_storage_backend base_path public_base_url) file folder f =
      let key = key_of row_id file folder in
      (
        ok (join public_base_url key),
        host.write_bytes (join base_path key) file.content (host.mkdir (join base_path folder) f),
      )
  save row_id (azure_blob_storage_backend connection_string container) file folder f =
      let key = key_of row_id file folder in
      (ok (host.blob_url container key), host.upload_blob container key file.content f)

  unfoldable pub get_url : StorageBackend → String → Exec F String
  get_url (local_storage_backend base_path public_base_url) key = pure (join public_base_url key)
  get_url (azure_blob_storage_backend connection_string container) key =
      pure (host.blob_url container key)
