-- ===== src/Application/Uploads.antt =====
-- `resume_upload` on a local disk: what is stored, and where the URL that it answers leads.
use Prim.Native.String.{◌++◌ as str_append}
use campus_hr_b.Prelude.{
  ℕ, ◌≡◌, ◌≢◌, refl, ap, sym, ◌∙◌, ◌⊎◌, inl, inr, String, false, some, str_eq, if◌then◌else◌, arith,
}
use campus_hr_b.Common.Enums.{CurrentUser, UserRole, student, coordinator}
use campus_hr_b.Common.Uuid.{to_text}
use campus_hr_b.Session.{Result, ok, err, http_exception, Refused}
use campus_hr_b.Storage.FilePath.{rstrip_slash, suffix}
use campus_hr_b.Storage.Backends.{
  Host, UploadFile, join, key_of, validate_upload, create_storage_backend, new_local, save,
  name_or_upload,
}
use campus_hr_b.Storage.Saving.{IsDisk}
use campus_hr_b.Storage.Slashes.{slashes, slashes-append}
use campus_hr_b.Storage.Names.{saved_name-slashes}
use campus_hr_b.Application.Files.{
  StorageSettings, get_storage, upload_resume, resume_upload, file_route,
}

module _ {F : Type 0} (host : Host F) (settings : StorageSettings) (row_id : ℕ) (file : UploadFile)
    (user : CurrentUser) (f : F) where
  abbrev pub resume_folder : String
  resume_folder = str_append "resumes/" (to_text user.id)

  abbrev pub resume_key : String
  resume_key = key_of row_id file resume_folder

  abbrev stored : F
  stored = host.write_bytes (join settings.local_storage_path resume_key) file.content (
      host.mkdir (join settings.local_storage_path resume_folder)
        (host.mkdir settings.local_storage_path f))

  abbrev Stores : Type 0
  Stores =
      (user.role ≡ student)
      × (validate_upload file ≡ ok tt)
      × (resume_upload host settings row_id file user f
          ≡ (ok (join "/api/v1/files" resume_key), stored))

  checked_case :
      (c : Result (Unit {0}))
      → user.role ≡ student
      → str_eq settings.storage_backend "azure" ≡ false
      → validate_upload file ≡ c
      → Refused (resume_upload host settings row_id file user f) f ⊎ Stores
  unfolding resume_upload upload_resume get_storage create_storage_backend new_local rstrip_slash
      save
  checked_case (err x) r at_home v = inl (rw (r, v) ((x, refl), refl))
  checked_case (ok tt) r at_home v = inr (r, v, rw (r, v, at_home) refl)

  resume_upload_cases :
      str_eq settings.storage_backend "azure" ≡ false
      → Refused (resume_upload host settings row_id file user f) f ⊎ Stores
  unfolding resume_upload
  resume_upload_cases at_home = role_case user.role refl
    where
      role_case :
          (r : UserRole)
          → user.role ≡ r
          → Refused (resume_upload host settings row_id file user f) f ⊎ Stores
      role_case student r = checked_case (validate_upload file) r at_home refl
      role_case coordinator r = inl (rw r ((http_exception 403 "Student only", refl), refl))

module _ {F : Type 0} (host : Host F) (settings : StorageSettings) (row_id : ℕ) (file : UploadFile)
    (user : CurrentUser) (f : F) (local' : str_eq settings.storage_backend "azure" ≡ false)
    (url : String) (g : F)
    (done : resume_upload host settings row_id file user f ≡ (ok url, g)) where
  success :
      Stores host settings row_id file user f
      × (url ≡ join "/api/v1/files" (resume_key host settings row_id file user f))
      × (g ≡ stored host settings row_id file user f)
  success = elim (resume_upload_cases host settings row_id file user f local') [
    | inl refused ↦ cc refused.0.1
    | inr (r, v, made) ↦
        let same = sym done ∙ made in
        ((r, v, made), value_of (ap (λ z. z.0) same), ap (λ z. z.1) same)
  ]
    where
      value_of : {a b : String} → ok a ≡ ok b → a ≡ b
      value_of q = cc q

  -- On a local disk, an upload that is answered with success is a student's, of a file that
  -- `validate_upload` takes. The bytes are then read under the student's own folder, in a file that
  -- is named by the new UUID and the suffix of the file's name and has no slash in its name,
  -- whatever the file's name is; every other file reads as before.
  pub resume_upload_stores :
      (disk : IsDisk host)
      → let name = str_append (to_text row_id) (suffix (name_or_upload file.filename)) in
        let key = join (str_append "resumes/" (to_text user.id)) name in
        (user.role ≡ student)
        × (validate_upload file ≡ ok tt)
        × (slashes name ≡ 0)
        × (url ≡ join "/api/v1/files" key)
        × ((path : String)
            → host.read_bytes path g ≡ (
                if str_eq path (join settings.local_storage_path key)
                then some file.content
                else host.read_bytes path f))
  unfolding key_of
  resume_upload_stores disk =
      let ((r, v, _), at, after) = success in
      let path = join settings.local_storage_path (resume_key host settings row_id file user f) in
      let folder =
        join settings.local_storage_path (resume_folder host settings row_id file user f) in
      (
        r,
        v,
        saved_name-slashes row_id (name_or_upload file.filename),
        at,
        λ p.
            ap (host.read_bytes p) after
            ∙ disk.read-write path p file.content
                (host.mkdir folder (host.mkdir settings.local_storage_path f))
            ∙ ap (λ o. if str_eq p path then some file.content else o)
                (disk.read-mkdir folder p (host.mkdir settings.local_storage_path f)
                  ∙ disk.read-mkdir settings.local_storage_path p f),
      )

  -- No URL that the route of saved files has leads to the upload: whatever values without a slash
  -- its two parameters have, it is another URL than the one that was answered.
  pub resume_upload_unserved :
      (folder filename : String)
      → slashes folder ≡ 0
      → slashes filename ≡ 0
      → url ≢ file_route folder filename
  unfolding key_of slashes
  resume_upload_unserved folder filename p q same =
      let (_, at, _) = success in
      let id = to_text user.id in
      let name = str_append (to_text row_id) (suffix (name_or_upload file.filename)) in
      let counted = ap slashes (sym at ∙ same) in
      omega (
        arith,
        counted,
        slashes-append "/api/v1/files"
            (str_append "/" (str_append (str_append "resumes/" id) (str_append "/" name))),
        slashes-append "/" (str_append (str_append "resumes/" id) (str_append "/" name)),
        slashes-append (str_append "resumes/" id) (str_append "/" name),
        slashes-append "resumes/" id,
        slashes-append "/" name,
        slashes-append "/api/v1/files/" (str_append folder (str_append "/" filename)),
        slashes-append folder (str_append "/" filename),
        slashes-append "/" filename,
        p,
        q,
      )
