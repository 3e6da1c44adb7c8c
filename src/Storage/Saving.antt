-- ===== src/Storage/Saving.antt =====
-- What the storage package relies on in the file system.
use campus_hr_b.Prelude.{ℕ, ◌≡◌, String, some, List, str_eq, if◌then◌else◌}
use campus_hr_b.Storage.Backends.{Host}

-- What the package relies on in pathlib: a file that is written has these bytes, any other has the
-- bytes that it had, and a directory that is made changes no file.
pub record IsDisk {F : Type 0} (host : Host F) : Type 0 where
  pub read-write :
      (p q : String) (bytes : List ℕ) (f : F)
      → host.read_bytes q (host.write_bytes p bytes f)
        ≡ (if str_eq q p then some bytes else host.read_bytes q f)
  pub read-mkdir : (p q : String) (f : F) → host.read_bytes q (host.mkdir p f) ≡ host.read_bytes q f
