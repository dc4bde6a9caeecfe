-- ===== src/SignImage/Tarball.antt =====
-- cmd/signimage/signimage.go: addFileToTarball, which puts a file into the tarball of the new layer.
use rh_kernel_module_managem.Prelude.{ℕ, String, List, ◌≡◌, refl, Bool, true, false, if◌then◌else◌}
use rh_kernel_module_managem.Api.{Result, ok, err, panic, wrapw, wrap_err}
use rh_kernel_module_managem.Api.Errors.{◌>>=◌}

pub record FileInfo : Type 0 where
  pub is_dir : Bool
  pub mode : ℕ
  pub size : ℕ

pub record TarHeader : Type 0 where
  pub name : String
  pub mode : ℕ
  pub typeflag : ℕ
  pub size : ℕ

-- The file system and the writer of the archive. `copy` is io.Copy from the open file.
pub record TarWriter : Type 0 where
  pub stat : String → Result FileInfo
  pub write_header : TarHeader → Result (Unit {0})
  pub open_file : String → Result (List ℕ)
  pub copy : List ℕ → Result (Unit {0})

unfoldable pub header_of : String → FileInfo → TarHeader
header_of name info = record { name = name; mode = info.mode; typeflag = 0; size = info.size }

-- the header and the contents of a file
unfoldable pub write_entry : TarWriter → String → String → FileInfo → Result Bool
unfolding header_of
write_entry t source name info = do
  _ ← wrap_err (wrapw "failed to write tar header") (t.write_header (header_of name info))
  f ← wrap_err (wrapw "failed to open file to add to the tar") (t.open_file source)
  _ ← wrap_err (wrapw "failed to read file into the tar") (t.copy f)
  ok true

unfoldable pub write_file_info : TarWriter → String → String → Result FileInfo → Result Bool
unfolding write_entry
write_file_info t source name (err e) = err (wrapw "failed to stat" e)
write_file_info t source name panic = panic
write_file_info t source name (ok info) =
    if info.is_dir then ok false else write_entry t source name info

-- Whether the file is in the tarball then: a directory is passed over.
unfoldable pub add_file_to_tarball : TarWriter → String → String → Result Bool
unfolding write_file_info
add_file_to_tarball t source name = write_file_info t source name (t.stat source)

-- A result that is not `ok false`.
record Writes (r : Result Bool) : Type 0 where
  at : (b : Bool) → r ≡ ok b → b ≡ true

Writes-true : Writes (ok true)
Writes-true = record { at = λ b h. cc }

Writes-bind :
    {A : Type 0} (r : Result A) (k : A → Result Bool) → ((a : A) → Writes (k a)) → Writes (r >>= k)
Writes-bind (ok a) k h = h a
Writes-bind (err e) k h = record { at = λ b h. cc }
Writes-bind panic k h = record { at = λ b h. cc }

module _ (t : TarWriter) (source name : String) where
  Writes-write_entry : (info : FileInfo) → Writes (write_entry t source name info)
  unfolding write_entry
  Writes-write_entry info =
      Writes-bind
        (wrap_err (wrapw "failed to write tar header") (t.write_header (header_of name info))) _
        λ _.
          Writes-bind
            (wrap_err (wrapw "failed to open file to add to the tar") (t.open_file source)) _
            λ f.
              Writes-bind (wrap_err (wrapw "failed to read file into the tar") (t.copy f)) _
                λ _. Writes-true

  Writes-write_file_info :
      (r : Result FileInfo)
      → ((info : FileInfo) → r ≡ ok info → info.is_dir ≡ false)
      → Writes (write_file_info t source name r)
  unfolding write_file_info
  Writes-write_file_info (err e) d = record { at = λ b h. cc }
  Writes-write_file_info panic d = record { at = λ b h. cc }
  Writes-write_file_info (ok info) d = rw (d info refl) (Writes-write_entry info)

  -- What is no directory is in the tarball, if there is no error.
  pub add_file_to_tarball-written :
      (b : Bool)
      → ((info : FileInfo) → t.stat source ≡ ok info → info.is_dir ≡ false)
      → add_file_to_tarball t source name ≡ ok b
      → b ≡ true
  unfolding add_file_to_tarball
  add_file_to_tarball-written b d h = (Writes-write_file_info (t.stat source) d).at b h
