-- ===== src/Files/Pending.antt =====
-- The unique placeholder of an upload that src/files/files.service.ts has not finished.
use tutor_app_back.Files.{
  IncomingFile, assert_acceptable, assert_within_quota, is_key_taken, insert_file, finalise,
  stored_bytes, pending_file, store_file, upload_for_student, upload_for_lesson, upload_to_library,
}
use tutor_app_back.Files.Uploads.{assert_acceptable-state, for_student-cases, for_lesson-cases}
use tutor_app_back.Prelude.{
  ℕ, ◌+◌, ◌≤◌, ◌≡◌, refl, ◌∙◌, inl, inr, Bool, true, false, not, none, some, List, [], ◌∷◌, arith,
  ltb,
}
use tutor_app_back.Prelude.Int.{ℤ}
use tutor_app_back.Prelude.Table.{
  Key, Table, lookup, append, lookup-append, KeysBelow, lookup_fresh,
}
use tutor_app_back.Model.{
  tutor_library, User, StorageKey, pending, key_for, FileRow, Db, Error, quota_exceeded,
  storage_failed, unique_violation, Result, ok, err, Action, ◌>>=◌, ◌>>◌, throw_if, Action-cases,
  >>=-ok, returned_here, >>=-err, threw_here,
}

-- Some stored file has the placeholder for its storage key.
abbrev pub HasPending : Db → Type 0
HasPending db = (k : Key) × (g : FileRow) × (lookup k db.files ≡ some g) × (g.storage_key ≡ pending)

is_key_taken-pending :
    (n k : Key) (g : FileRow) (t : Table FileRow)
    → lookup k t ≡ some g
    → g.storage_key ≡ pending
    → KeysBelow n t
    → is_key_taken n pending t ≡ true
is_key_taken-pending n k g [] found mark below = absurd (cc)
is_key_taken-pending n k g ((j, h) ∷ t) found mark below =
    ground (arith, is_key_taken-pending n k g t)

-- The call threw and wrote nothing.
abbrev pub Refused : Result FileRow × Db → Db → Type 0
Refused p db = (e : Error) × (p ≡ (err e, db))

guarded_insert-blocked :
    (b : Bool) (e₀ : Error) (row : FileRow) (k : Key → Action FileRow) (db : Db)
    → is_key_taken db.next_id row.storage_key db.files ≡ true
    → (e : Error) × ((throw_if b e₀ >> (insert_file row >>= k)) db ≡ (err e, db))
guarded_insert-blocked true e₀ row k db taken = (e₀, refl)
guarded_insert-blocked false e₀ row k db taken = (unique_violation, ground arith)

module _ (max_bytes max_school_bytes : ℕ) (now : ℤ) (save : StorageKey → List ℕ → Bool)
    (f : IncomingFile) (db : Db) where
  -- With a placeholder in the table the shared part of the uploads throws, and writes nothing.
  store_file-blocked :
      (row : FileRow)
      → row.storage_key ≡ pending
      → HasPending db
      → KeysBelow db.next_id db.files
      → (e : Error) × (store_file max_bytes max_school_bytes now save row f db ≡ (err e, db))
  unfolding store_file
  store_file-blocked row mark (k, g, found, left) below =
      let after : Key → Action FileRow = λ id.
        throw_if (not (save (key_for row.school_id id) f.buffer)) storage_failed
        >> finalise id (key_for row.school_id id) now row in
      let rest : Action FileRow =
        assert_within_quota max_school_bytes row.school_id f.size >> (insert_file row >>= after) in
      let taken = is_key_taken-pending db.next_id k g db.files found left below in
      elim (Action-cases (assert_acceptable max_bytes f) db) [
        | inl (e, d, odd) ↦ (
          e,
          >>=-err (assert_acceptable max_bytes f) (λ _. rest) db db
              (threw_here (assert_acceptable-state max_bytes f db) odd),
        )
        | inr (_, d, fine) ↦
            let (e, blocked) =
              guarded_insert-blocked
                (ltb max_school_bytes (stored_bytes row.school_id db.files + f.size)) quota_exceeded
                row after db (rw mark taken) in
            (
              e,
              >>=-ok (assert_acceptable max_bytes f) (λ _. rest) db db
                    (returned_here (assert_acceptable-state max_bytes f db) fine)
                  ∙ blocked,
            )
      ]

module _ (max_bytes max_school_bytes : ℕ) (now : ℤ) (save : StorageKey → List ℕ → Bool) where
  -- While the row of one unfinished upload is stored, of whatever school, every upload by anybody throws and
  -- writes nothing, when new ids are fresh.
  pub pending_blocks_uploads :
      (db : Db)
      → HasPending db
      → KeysBelow db.next_id db.files
      → (user : User) (student lesson : Key) (f : IncomingFile)
      → Refused (upload_for_student max_bytes max_school_bytes now save user student f db) db
        × Refused (upload_for_lesson max_bytes max_school_bytes now save user lesson f db) db
        × Refused (upload_to_library max_bytes max_school_bytes now save user f db) db
  unfolding upload_to_library
  pending_blocks_uploads db left below user student lesson f =
      let blocked = λ (row : FileRow) (mark : row.storage_key ≡ pending).
        store_file-blocked max_bytes max_school_bytes now save f db row mark left below in
      (
        elim (for_student-cases max_bytes max_school_bytes now save user f db student) [
          | inl refused ↦ refused
          | inr (s, same) ↦ (let (e, b) = blocked _ refl in (e, same ∙ b))
        ],
        elim (for_lesson-cases max_bytes max_school_bytes now save user f db lesson) [
          | inl refused ↦ refused
          | inr (l, same) ↦ (let (e, b) = blocked _ refl in (e, same ∙ b))
        ],
        blocked _ refl,
      )

KeysBelow-append :
    (n : ℕ) (f : FileRow) (t : Table FileRow) → KeysBelow n t → KeysBelow (n + 1) (append n f t)
KeysBelow-append n f [] below = (omega arith, tt)
KeysBelow-append n f ((j, g) ∷ t) (small, below) = (omega arith, KeysBelow-append n f t below)

module _ (max_bytes max_school_bytes : ℕ) (now : ℤ) (save : StorageKey → List ℕ → Bool)
    (user : User) (f : IncomingFile) (db : Db) where
  abbrev shelved : FileRow
  shelved = pending_file tutor_library user.school_id user none none f

  -- When a file is acceptable and fits the quota, no upload is unfinished and new ids are fresh, and the storage
  -- fails to save the bytes, then the upload throws and its row stays behind with the placeholder: every
  -- upload after it is refused until somebody removes that row.
  pub failed_save-HasPending :
      assert_acceptable max_bytes f db ≡ (ok tt, db)
      → stored_bytes user.school_id db.files + f.size ≤ max_school_bytes
      → is_key_taken db.next_id pending db.files ≡ false
      → KeysBelow db.next_id db.files
      → save (key_for user.school_id db.next_id) f.buffer ≡ false
      → (d : Db) × (upload_to_library max_bytes max_school_bytes now save user f db
          ≡ (err storage_failed, d))
        × HasPending d
        × KeysBelow d.next_id d.files
  unfolding upload_to_library
  failed_save-HasPending fine room free below failed = (
    record db { files = append db.next_id shelved db.files; next_id = db.next_id + 1 },
    ground arith,
    (
      db.next_id,
      shelved,
      ground (
        arith,
        lookup-append db.next_id db.next_id shelved db.files
            (lookup_fresh db.next_id db.files below),
      ),
      refl,
    ),
    KeysBelow-append db.next_id shelved db.files below,
  )
