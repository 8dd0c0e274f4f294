-- ===== src/Files/Uploads.antt =====
-- What a stored file has passed.
use django_boilderplate.Env.{Image, image, no_image, Env}
use django_boilderplate.Security.LoginProtection.{text_in}
use django_boilderplate.World.{
  err-atomic, db-atomic_err, err, Result, Db, raise_if, Keeps-when, when, Keeps-raise_if,
  Keeps-bind, continue, db-atomic_ok, Quiet, Error, pure, enter, raise_if_ok, bind-ok, ok-atomic,
  value_or, ok, World,
}
use django_boilderplate.Models.Files.{StoredFile}
use django_boilderplate.Prelude.{
  false, Bool, ◌∙◌, ◌*◌, subst, starts_with, some, refl, none, inr, inl, Option-cases, ◌≤◌, ◌≡◌,
  ◌∷◌, ◌++◌, ℕ, true, sym, not, ltb, arith, ap, [], Option,
}
use django_boilderplate.World.Monad.{◌>>◌, ◌>>=◌}
use django_boilderplate.Files.{
  scan, check_opened, check_inside, check_content, validation_error, check_size, detected_mime,
  metadata_of, size_limit, FileMetadata, store_checked, validate_file, UploadedFile,
  SecureFileValidator, store,
}

-- A file that is detected as an image opens as one that is verified and not too large.
abbrev pub ImageFine : Env → Bool → Image → Type 0
ImageFine env false i = Unit {0}
ImageFine env true no_image = ⊥
ImageFine env true (image width height verified) =
    (width * height ≤ env.settings.max_image_pixels) × (verified ≡ true)

-- what the scanner raises, if there is one
abbrev pub refusal : Option (UploadedFile → Option Error) → UploadedFile → Option Error
refusal none file = none
refusal (some scanner) file = scanner file

-- What the checks of an upload ask for.
abbrev pub Accepted : Env → SecureFileValidator → UploadedFile → StoredFile → Type 0
Accepted env v file row =
    (text_in (env.suffix_of file.name) v.allowed_extensions ≡ true)
    × (row.size ≤ size_limit env.settings v)
    × (ImageFine env (starts_with "image/" row.content_type) (env.open_image file.content))
    × (refusal v.malware_scanner file ≡ none)
    × (text_in row.content_type v.allowed_mime_types ≡ true)
    × (row.content_type ≡ detected_mime env file)
    × (row.size ≡ file.size)
    × (row.checksum_sha256 ≡ env.file_digest file.content)

abbrev rows : Db → Db
rows db = db

module _ (env : Env) (v : SecureFileValidator) (file : UploadedFile) where
  image_ok :
      (b : Bool) (i : Image) (w : World)
      → (when b (check_opened env i) w).0 ≡ ok tt
      → ImageFine env b i
  image_ok false i w h = tt
  image_ok true no_image w h = absurd (ground (arith, h))
  image_ok true (image width height verified) w h =
      let (small, rest) =
        raise_if_ok (raise_if (not verified) validation_error) w tt
          (ltb env.settings.max_image_pixels (width * height)) validation_error h in
      (ground (arith, small), ground (arith, rest))

  scan_ok :
      (s : Option (UploadedFile → Option Error)) (w : World)
      → (scan s file w).0 ≡ ok tt
      → refusal s file ≡ none
  scan_ok none w h = refl
  scan_ok (some scanner) w h = ground (arith, h)

  validate_file_ok :
      (m : FileMetadata) (w : World)
      → (validate_file env v file w).0 ≡ ok m
      → (metadata_of env file ≡ m)
        × (text_in (env.suffix_of file.name) v.allowed_extensions ≡ true)
        × (file.size ≤ size_limit env.settings v)
        × (ImageFine env
            (starts_with "image/" (detected_mime env file))
            (env.open_image file.content))
        × (refusal v.malware_scanner file ≡ none)
        × (text_in (detected_mime env file) v.allowed_mime_types ≡ true)
  unfolding validate_file
  validate_file_ok m w done =
      let (named, rest) =
        raise_if_ok (check_size env v file) w m
          (not (text_in (env.suffix_of file.name) v.allowed_extensions)) validation_error done in
      let (sized, rest2) =
        raise_if_ok (check_content env v file >> pure (metadata_of env file)) w m
          (ltb (size_limit env.settings v) file.size) validation_error rest in
      let (_, checked, made) =
        bind-ok (λ _. pure (metadata_of env file)) m (check_content env v file) w rest2 in
      let (typed, inside) =
        raise_if_ok (check_inside env v file) w tt
          (not (text_in (detected_mime env file) v.allowed_mime_types)) validation_error checked in
      let (_, opened, scanned) =
        bind-ok (λ _. scan v.malware_scanner file) tt
          (when (starts_with "image/" (detected_mime env file))
            (check_opened env (env.open_image file.content)))
          w inside in
      (
        ap (value_or m) made,
        ground (arith, named),
        ground (arith, sized),
        image_ok (starts_with "image/" (detected_mime env file)) (env.open_image file.content) w
            opened,
        scan_ok v.malware_scanner _ scanned,
        ground (arith, typed),
      )

  Quiet-check_opened : (i : Image) → Quiet (check_opened env i)
  Quiet-check_opened (image width height verified) =
      Keeps-bind rows
        (raise_if (ltb env.settings.max_image_pixels (width * height)) validation_error)
        (λ _. raise_if (not verified) validation_error)
        (Keeps-raise_if rows (ltb env.settings.max_image_pixels (width * height)) validation_error)
        (λ _. Keeps-raise_if rows (not verified) validation_error)
  Quiet-check_opened no_image = λ _. refl

  Quiet-scan : (s : Option (UploadedFile → Option Error)) → Quiet (scan s file)
  Quiet-scan none w = refl
  Quiet-scan (some scanner) w = elim (Option-cases (scanner file)) [
    | inl e ↦ simp e
    | inr (x, e) ↦ simp e
  ]

  Quiet-validate_file : Quiet (validate_file env v file)
  unfolding validate_file
  Quiet-validate_file =
      let is_image = starts_with "image/" (detected_mime env file) in
      let opened = check_opened env (env.open_image file.content) in
      Keeps-bind rows
        (raise_if (not (text_in (env.suffix_of file.name) v.allowed_extensions)) validation_error)
        (λ _. check_size env v file)
        (Keeps-raise_if rows (not (text_in (env.suffix_of file.name) v.allowed_extensions))
          validation_error)
        (λ _.
          Keeps-bind rows (raise_if (ltb (size_limit env.settings v) file.size) validation_error)
            (λ _. check_content env v file >> pure (metadata_of env file))
            (Keeps-raise_if rows (ltb (size_limit env.settings v) file.size) validation_error)
            (λ _.
              Keeps-bind rows (check_content env v file) (λ _. pure (metadata_of env file))
                (Keeps-bind rows
                  (raise_if (not (text_in (detected_mime env file) v.allowed_mime_types))
                    validation_error)
                  (λ _. check_inside env v file)
                  (Keeps-raise_if rows (not (text_in (detected_mime env file) v.allowed_mime_types))
                    validation_error)
                  (λ _.
                    Keeps-bind rows (when is_image opened) (λ _. scan v.malware_scanner file)
                      (Keeps-when rows is_image opened
                        (Quiet-check_opened (env.open_image file.content)))
                      (λ _. Quiet-scan v.malware_scanner)))
                (λ _ w. refl)))

  store_checked_ok :
      (owner : Option ℕ) (m : FileMetadata) (row : StoredFile) (w : World)
      → (store_checked env owner file m w).0 ≡ ok row
      → (row.content_type ≡ m.content_type)
        × (row.size ≡ m.size)
        × (row.checksum_sha256 ≡ m.checksum_sha256)
        × ((store_checked env owner file m w).1.db.stored_files ≡ w.db.stored_files ++ row ∷ [])
  unfolding store_checked
  store_checked_ok owner m row w done =
      let same = sym (ap (value_or row) done) in
      (
        ap (λ r. r.content_type) same,
        ap (λ r. r.size) same,
        ap (λ r. r.checksum_sha256) same,
        ap (λ r. w.db.stored_files ++ r ∷ []) (sym same),
      )

store_ok :
    (env : Env) (owner : Option ℕ) (file : UploadedFile) (v : SecureFileValidator) (w : World)
    (row : StoredFile)
    → (store env owner file v w).0 ≡ ok row
    → Accepted env v file row
      × ((store env owner file v w).1.db.stored_files ≡ w.db.stored_files ++ row ∷ [])
unfolding store
store_ok env owner file v w row done =
    let keep = store_checked env owner file in
    let ran = ok-atomic (validate_file env v file >>= keep) w row done in
    let (m, valid, kept) = bind-ok keep row (validate_file env v file) (enter w) ran in
    let (same, named, sized, opened, scanned, typed) =
      validate_file_ok env v file m (enter w) valid in
    let (type_, size_, digest, rows) =
      store_checked_ok env v file owner m row (validate_file env v file (enter w)).1 kept in
    (
      (
        named,
        subst (λ n. n ≤ size_limit env.settings v) (ap (λ x. x.size) same ∙ sym size_) sized,
        subst (λ t. ImageFine env (starts_with "image/" t) (env.open_image file.content))
            (ap (λ x. x.content_type) same ∙ sym type_) opened,
        scanned,
        subst (λ t. text_in t v.allowed_mime_types ≡ true)
            (ap (λ x. x.content_type) same ∙ sym type_) typed,
        type_ ∙ ap (λ x. x.content_type) (sym same),
        size_ ∙ ap (λ x. x.size) (sym same),
        digest ∙ ap (λ x. x.checksum_sha256) (sym same),
      ),
      ap (λ db. db.stored_files) (db-atomic_ok (validate_file env v file >>= keep) w row ran)
          ∙ ap (λ x. (continue x keep (validate_file env v file (enter w)).1).1.db.stored_files)
              valid
          ∙ rows
          ∙ ap (λ db. db.stored_files ++ row ∷ []) (Quiet-validate_file env v file (enter w)),
    )

-- What a call of `store` in `w` may end in.
abbrev pub Outcome :
    Env → SecureFileValidator → UploadedFile → World → Result StoredFile × World → Type 0
Outcome env v file w (ok row, w') =
    Accepted env v file row × (w'.db.stored_files ≡ w.db.stored_files ++ row ∷ [])
Outcome env v file w (err e, w') = w'.db ≡ w.db

outcome :
    (env : Env) (owner : Option ℕ) (file : UploadedFile) (v : SecureFileValidator) (w : World)
    (r : Result StoredFile) (w' : World)
    → store env owner file v w ≡ (r, w')
    → Outcome env v file w (r, w')
unfolding store
outcome env owner file v w (ok row) w' e =
    let (fine, added) = store_ok env owner file v w row (ap (λ x. x.0) e) in
    (fine, sym (ap (λ x. x.1.db.stored_files) e) ∙ added)
outcome env owner file v w (err x) w' e =
    let body = validate_file env v file >>= store_checked env owner file in
    sym (ap (λ r. r.1.db) e) ∙ db-atomic_err body w x (err-atomic body w x (ap (λ r. r.0) e))

-- `store` returns only for a file whose extension and detected type are allowed, whose size is within
-- the limit, which opens as a verified image within the limit of pixels if its type is that of an
-- image, and at which the scanner, if there is one, does not raise; it then adds one row with the
-- detected type, the size and the digest. If it raises, no row changes.
pub store_lem :
    (env : Env) (owner : Option ℕ) (file : UploadedFile) (v : SecureFileValidator) (w : World)
    → Outcome env v file w (store env owner file v w)
store_lem env owner file v w =
    let x = store env owner file v w in outcome env owner file v w x.0 x.1 refl
