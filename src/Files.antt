-- ===== src/Files.antt =====
-- The checks of an upload (apps/files/validators.py), and `FileService` of apps/files/services.py.
use django_boilderplate.World.Monad.{◌>>=◌}
use Prim.Native.String.{◌++◌ as cat}
use django_boilderplate.Security.LoginProtection.{text_in}
use django_boilderplate.World.{
  modify_db, gets, fresh_pk, when, draw, validation_error, ◌>>=◌, atomic, raise_if, raise, ◌>>◌,
  pure, Action, Error,
}
use django_boilderplate.Prelude.{
  ◌∷◌, ◌==◌, ◌/◌, ◌++◌, ◌*◌, ℕ, starts_with, some, not, none, ltb, if◌then◌else◌, has_char,
  after_last, [], String, Option, List,
}
use django_boilderplate.Env.{Env, Settings, image, no_image, Image}
use django_boilderplate.Models.Files.{StoredFile, ready}
pub mod Uploads

pub record UploadedFile : Type 0 where
  pub name : String
  pub size : ℕ
  pub content : String

-- The validator with its arguments, the extensions in lower case and without a dot; `max_size` is 0
-- where none is given, and the scanner raises or
-- returns.
pub record SecureFileValidator : Type 0 where
  pub allowed_extensions : List String
  pub allowed_mime_types : List String
  pub max_size : ℕ
  pub malware_scanner : Option (UploadedFile → Option Error)

pub record FileMetadata : Type 0 where
  pub content_type : String
  pub size : ℕ
  pub checksum_sha256 : String

-- `max_size or settings.MAX_UPLOAD_SIZE`
abbrev pub size_limit : Settings → SecureFileValidator → ℕ
size_limit s v = if v.max_size == 0 then s.max_upload_size else v.max_size

-- `guessed.mime if guessed else "application/octet-stream"`
abbrev mime_or_octets : Option String → String
mime_or_octets none = "application/octet-stream"
mime_or_octets (some mime) = mime

-- the call of the scanner
abbrev pub scan : Option (UploadedFile → Option Error) → UploadedFile → Action (Unit {0})
scan none file = pure tt
scan (some scanner) file = elim (scanner file) [ none ↦ pure tt | some e ↦ raise e ]

module _ (env : Env) where
  -- the `with` block, and its exceptions
  abbrev pub check_opened : Image → Action (Unit {0})
  check_opened (image width height verified) = do
    raise_if (ltb env.settings.max_image_pixels (width * height)) validation_error
    raise_if (not verified) validation_error
  check_opened no_image = raise validation_error

  abbrev pub detected_mime : UploadedFile → String
  detected_mime file = mime_or_octets (env.guess_mime file.content)

  -- the checks after those of the name and the size
  abbrev pub check_inside : SecureFileValidator → UploadedFile → Action (Unit {0})
  check_inside v file = do
    when (starts_with "image/" (detected_mime file)) (check_opened (env.open_image file.content))
    scan v.malware_scanner file

  abbrev pub check_content : SecureFileValidator → UploadedFile → Action (Unit {0})
  check_content v file = do
    raise_if (not (text_in (detected_mime file) v.allowed_mime_types)) validation_error
    check_inside v file

  abbrev pub metadata_of : UploadedFile → FileMetadata
  metadata_of file = record {
    content_type = detected_mime file;
    size = file.size;
    checksum_sha256 = env.file_digest file.content;
  }

  abbrev pub check_size : SecureFileValidator → UploadedFile → Action FileMetadata
  check_size v file = do
    raise_if (ltb (size_limit env.settings v) file.size) validation_error
    check_content v file
    pure (metadata_of file)

  -- `SecureFileValidator.__call__`
  unfoldable pub validate_file : SecureFileValidator → UploadedFile → Action FileMetadata
  unfolding starts_with
  validate_file v file = do
    raise_if (not (text_in (env.suffix_of file.name) v.allowed_extensions)) validation_error
    check_size v file

  -- `secure_upload_path` of apps/files/models.py: the owner, a random name and the extension
  unfoldable pub secure_upload_path : Option ℕ → String → String → String
  unfolding has_char
  secure_upload_path owner unique filename = cat "uploads/" (
      cat (elim owner [ none ↦ "system" | some pk ↦ env.pk_text pk ])
        (cat "/" (
          cat unique (
            cat "." (if has_char 46 filename then env.lower (after_last 46 filename) else "bin")))))

  -- the row of a file that has passed
  unfoldable pub store_checked : Option ℕ → UploadedFile → FileMetadata → Action StoredFile
  unfolding secure_upload_path
  store_checked owner file metadata = do
    n ← draw
    pk ← fresh_pk
    now ← gets (λ w. w.now)
    let row : StoredFile = record {
      pk = pk;
      owner = owner;
      file = secure_upload_path owner (env.random_hex n) file.name;
      original_name = env.first_255 file.name;
      content_type = metadata.content_type;
      size = metadata.size;
      checksum_sha256 = metadata.checksum_sha256;
      status = ready;
      created_at = now;
      deleted_at = none;
    }
    modify_db (λ db. record db { stored_files = db.stored_files ++ row ∷ [] })
    pure row

  unfoldable pub store : (owner : Option ℕ) → UploadedFile → SecureFileValidator → Action StoredFile
  unfolding validate_file store_checked
  store owner file v = atomic do metadata ← validate_file v file; store_checked owner file metadata
