-- ===== src/Tests/Uploads.antt =====
-- Uploads to a disk that is a function from paths to bytes, and the messages of one application on
-- their way to the student.
use Prim.Native.String.{◌++◌ as str_append}
use campus_hr_b.Prelude.{
  ℕ, ◌≡◌, ◌≢◌, refl, String, Option, none, some, List, [], ◌∷◌, str_eq, is_some, if◌then◌else◌, ◌↔◌,
}
use campus_hr_b.Common.Enums.{CurrentUser, student}
use campus_hr_b.Common.Uuid.{to_text, hex_onto, digit, dash}
use campus_hr_b.Storage.Slashes.{slashes}
use campus_hr_b.Session.{ok}
use campus_hr_b.Storage.FilePath.{suffix, name_of, rstrip_slash}
use campus_hr_b.Storage.Backends.{
  UploadFile, Host, join, validate_upload, create_storage_backend, new_local, save, key_of,
  name_or_upload,
}
use campus_hr_b.Storage.Saving.{IsDisk}
use campus_hr_b.Storage.Suffix.{HasAllowedSuffix, validate_upload_decides}
use campus_hr_b.Application.Files.{
  StorageSettings, file_route, get_storage, upload_resume, resume_upload,
}
use campus_hr_b.Application.Uploads.{resume_upload_stores, resume_upload_unserved}

abbrev Disk : Type 0
Disk = String → Option (List ℕ)

abbrev disk_host : Host Disk
disk_host = record {
  exists_file = λ p f. is_some (f p);
  read_bytes = λ p f. f p;
  write_bytes = λ p bytes f q. if str_eq q p then some bytes else f q;
  mkdir = λ p f. f;
  create_container = λ c f. f;
  upload_blob = λ c key bytes f. f;
  blob_url = λ c key. key;
}

disk_host-IsDisk : IsDisk disk_host
disk_host-IsDisk = record { read-write = λ p q bytes f. refl; read-mkdir = λ p q f. refl }

abbrev cv : UploadFile
cv = record { filename = some "home/CV.final.Pdf"; content = 37 ∷ 80 ∷ [] }

abbrev settings : StorageSettings
settings = record {
  storage_backend = "local";
  local_storage_path = "/data/uploads";
  azure_storage_connection_string = "";
  azure_storage_container = "campushire";
}

abbrev rahul : CurrentUser
rahul = record { id = 7; role = student }

abbrev nothing : Disk
nothing = λ p. none

abbrev saved : Disk
saved = (resume_upload disk_host settings 11 cv rahul nothing).1

abbrev key : String
key = "resumes/00000000-0000-0000-0000-000000000007/00000000-0000-0000-0000-00000000000b.Pdf"

upload_runs :
    resume_upload disk_host settings 11 cv rahul nothing ≡ (ok (join "/api/v1/files" key), saved)
unfolding resume_upload upload_resume get_storage create_storage_backend new_local save
    validate_upload key_of to_text rstrip_slash hex_onto digit dash
upload_runs = refl

validate_upload_decides_example :
    (validate_upload cv ≡ ok tt)
    ↔ ((filename : String) × (cv.filename ≡ some filename) × HasAllowedSuffix (name_of filename))
validate_upload_decides_example = validate_upload_decides cv

resume_upload_unserved_example : join "/api/v1/files" key ≢ file_route "resumes" "cv.Pdf"
unfolding slashes
resume_upload_unserved_example =
    resume_upload_unserved disk_host settings 11 cv rahul nothing refl (join "/api/v1/files" key)
      saved upload_runs "resumes" "cv.Pdf" refl refl

resume_upload_stores_example :
    let name = str_append (to_text 11) (suffix (name_or_upload (some "home/CV.final.Pdf"))) in
    let path = join (str_append "resumes/" (to_text 7)) name in
    (rahul.role ≡ student)
    × (validate_upload cv ≡ ok tt)
    × (slashes name ≡ 0)
    × (join "/api/v1/files" key ≡ join "/api/v1/files" path)
    × ((p : String)
        → disk_host.read_bytes p saved ≡ (
            if str_eq p (join settings.local_storage_path path)
            then some cv.content
            else disk_host.read_bytes p nothing))
resume_upload_stores_example =
    resume_upload_stores disk_host settings 11 cv rahul nothing refl (join "/api/v1/files" key)
      saved upload_runs disk_host-IsDisk
