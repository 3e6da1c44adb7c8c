-- ===== src/Application/Files.antt =====
-- The upload and the serving of files in services/application-service/app: `get_storage` and the
-- upload of application_service.py, its route, and `serve_local_file` of main.py.
use Prim.Native.String.{◌++◌ as str_append}
use campus_hr_b.Prelude.{ℕ, String, some, none, not, str_eq, if◌then◌else◌}
use campus_hr_b.Common.Enums.{CurrentUser, is_student}
use campus_hr_b.Common.Uuid.{to_text}
use campus_hr_b.Session.{Exec, ok, http_exception, lift, raise_if, ◌>>=◌, ◌>>◌}
use campus_hr_b.Storage.Backends.{
  UploadFile, Host, StorageBackend, join, validate_upload, create_storage_backend, save,
}

-- the part of Settings (config.py) that is about files
pub record StorageSettings : Type 0 where
  pub storage_backend : String
  pub local_storage_path : String
  pub azure_storage_connection_string : String
  pub azure_storage_container : String

-- what `serve_local_file` answers: `{"detail": ...}`, or the file at a path
pub data FileAnswer : Type 0 where
  detail : String → FileAnswer
  file_response : String → FileAnswer

-- the path of the route `/api/v1/files/{folder}/{filename}` at values of its parameters
abbrev pub file_route : String → String → String
file_route folder filename =
    str_append "/api/v1/files/" (str_append folder (str_append "/" filename))

module _ {F : Type 0} (host : Host F) (settings : StorageSettings) where
  unfoldable pub get_storage : Exec F StorageBackend
  get_storage =
      if str_eq settings.storage_backend "azure"
      then create_storage_backend host "azure" (record {
        connection_string = some settings.azure_storage_connection_string;
        container = some settings.azure_storage_container;
        local_path = none;
        public_base_url = none;
      })
      else create_storage_backend host "local" (record {
        connection_string = none;
        container = none;
        local_path = some settings.local_storage_path;
        public_base_url = some "/api/v1/files";
      })

  unfoldable pub upload_resume : ℕ → UploadFile → ℕ → Exec F String
  unfolding get_storage
  upload_resume row_id file student_id = do
    lift (validate_upload file)
    storage ← get_storage
    save host row_id storage file (str_append "resumes/" (to_text student_id))

  -- the answer is `{"url": url}`
  unfoldable pub resume_upload : ℕ → UploadFile → CurrentUser → Exec F String
  unfolding upload_resume
  resume_upload row_id file user = do
    raise_if (not (is_student user.role)) (http_exception 403 "Student only")
    upload_resume row_id file user.id

  unfoldable pub serve_local_file : String → String → Exec F FileAnswer
  serve_local_file folder filename f =
      if not (str_eq settings.storage_backend "local")
      then (ok (detail "Not available"), f)
      else (let path = join settings.local_storage_path (join folder filename) in
          if not (host.exists_file path f)
          then (ok (detail "Not found"), f)
          else (ok (file_response path), f))
