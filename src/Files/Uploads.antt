-- ===== src/Files/Uploads.antt =====
-- What an upload of src/files/files.service.ts leaves behind, whether it returns or throws.
use tutor_app_back.Files.{
  IncomingFile, assert_acceptable, stored_bytes, finalised, pending_file, store_file,
  upload_for_student, upload_for_lesson, upload_to_library,
}
use tutor_app_back.Files.Signatures.{bytes_look_like}
use tutor_app_back.Access.{student-find_one-state, find_reachable-state}
use tutor_app_back.Students
use tutor_app_back.Lessons
use tutor_app_back.Files.{is_allowed}
use tutor_app_back.Prelude.{
  ℕ, ◌+◌, ◌≤◌, ◌≡◌, refl, ◌⊎◌, inl, inr, Bool, true, false, not, none, some, List, [], ◌∷◌, arith,
  ltb, ◌==◌, if◌then◌else◌,
}
use tutor_app_back.Prelude.Int.{ℤ}
use tutor_app_back.Prelude.Table.{Key, Table, modify, append}
use tutor_app_back.Model.{
  lesson_attachment, student_attachment, User, StudentRow, LessonRow, StorageKey, key_for, FileRow,
  Db, Error, file_empty, file_too_large, unsupported_type, Result, err, ◌>>◌, throw_if,
  Action-cases, >>=-ok, returned_here, >>=-err, threw_here,
}

stored_bytes-append :
    (school k : Key) (f : FileRow) (t : Table FileRow)
    → stored_bytes school (append k f t)
      ≡ stored_bytes school t + (if f.school_id == school then f.size_bytes else 0)
stored_bytes-append school k f [] = ground arith
stored_bytes-append school k f ((j, g) ∷ t) = ground (arith, stored_bytes-append school k f t)

stored_bytes-finalise :
    (school k : Key) (key : StorageKey) (now : ℤ) (t : Table FileRow)
    → stored_bytes school (modify k (finalised key now) t) ≡ stored_bytes school t
stored_bytes-finalise school k key now [] = refl
stored_bytes-finalise school k key now ((j, g) ∷ t) =
    ground (arith, stored_bytes-finalise school k key now t)

guards-state :
    (a b c d : Bool) (e₁ e₂ e₃ e₄ : Error) (db : Db)
    → ((throw_if a e₁ >> (throw_if b e₂ >> (throw_if c e₃ >> throw_if d e₄))) db).1 ≡ db
guards-state true b c d e₁ e₂ e₃ e₄ db = refl
guards-state false true c d e₁ e₂ e₃ e₄ db = refl
guards-state false false true d e₁ e₂ e₃ e₄ db = refl
guards-state false false false true e₁ e₂ e₃ e₄ db = refl
guards-state false false false false e₁ e₂ e₃ e₄ db = refl

pub assert_acceptable-state :
    (max_bytes : ℕ) (f : IncomingFile) (db : Db) → (assert_acceptable max_bytes f db).1 ≡ db
unfolding assert_acceptable
assert_acceptable-state max_bytes f db =
    guards-state (f.size == 0) (ltb max_bytes f.size) (not (is_allowed f.mime_type))
      (not (bytes_look_like f.mime_type f.buffer)) file_empty file_too_large unsupported_type
      unsupported_type db

module _ (max_bytes max_school_bytes : ℕ) (now : ℤ) (save : StorageKey → List ℕ → Bool)
    (row : FileRow) (f : IncomingFile) (db : Db) where
  abbrev run : Result FileRow × Db
  run = store_file max_bytes max_school_bytes now save row f db

  store_file-files :
      (run.1.files ≡ db.files)
      ⊎ ((stored_bytes row.school_id db.files + f.size ≤ max_school_bytes)
          × ((run.1.files ≡ append db.next_id row db.files)
              ⊎ (run.1.files
                  ≡ modify db.next_id
                      (finalised (key_for row.school_id db.next_id) now)
                      (append db.next_id row db.files))))
  unfolding store_file
  store_file-files = ground (arith, assert_acceptable-state max_bytes f db)

  -- Whatever an upload answers, no school holds more than its quota that did not before.
  store_file-quota :
      (school : Key)
      → row.size_bytes ≡ f.size
      → stored_bytes school db.files ≤ max_school_bytes
      → stored_bytes school run.1.files ≤ max_school_bytes
  store_file-quota school sized before =
      let added = stored_bytes-append school db.next_id row db.files in
      elim store_file-files [
        | inl same ↦ rw same before
        | inr (room, inl left) ↦ rw left (ground arith)
        | inr (room, inr stored) ↦ rw stored (
            rw
              (stored_bytes-finalise school db.next_id (key_for row.school_id db.next_id) now
                (append db.next_id row db.files))
              (ground arith))
      ]

module _ (max_bytes max_school_bytes : ℕ) (now : ℤ) (save : StorageKey → List ℕ → Bool)
    (user : User) (f : IncomingFile) (db : Db) where
  abbrev pub for_student : Key → Result FileRow × Db
  for_student student = upload_for_student max_bytes max_school_bytes now save user student f db

  abbrev pub for_lesson : Key → Result FileRow × Db
  for_lesson lesson = upload_for_lesson max_bytes max_school_bytes now save user lesson f db

  abbrev pub to_library : Result FileRow × Db
  to_library = upload_to_library max_bytes max_school_bytes now save user f db

  abbrev pub stored_with : FileRow → Result FileRow × Db
  stored_with row = store_file max_bytes max_school_bytes now save row f db

  -- An upload is refused by the lookup of its student or lesson, or is the shared part.
  pub for_student-cases :
      (student : Key)
      → ((e : Error) × (for_student student ≡ (err e, db)))
        ⊎ ((s : StudentRow) × (for_student student
              ≡ stored_with
                  (pending_file student_attachment s.school_id user (some student) none f)))
  unfolding upload_for_student
  for_student-cases student = elim (Action-cases (Students.find_one user student) db) [
    | inl (e, d, far) ↦ inl (
      e,
      >>=-err (Students.find_one user student)
          (λ r.
            store_file max_bytes max_school_bytes now save
              (pending_file student_attachment r.school_id user (some student) none f) f)
          db db (threw_here (student-find_one-state user student db) far),
    )
    | inr (s, d, near) ↦ inr (
      s,
      >>=-ok (Students.find_one user student)
          (λ r.
            store_file max_bytes max_school_bytes now save
              (pending_file student_attachment r.school_id user (some student) none f) f)
          db db (returned_here (student-find_one-state user student db) near),
    )
  ]

  pub for_lesson-cases :
      (lesson : Key)
      → ((e : Error) × (for_lesson lesson ≡ (err e, db)))
        ⊎ ((l : LessonRow) × (for_lesson lesson
              ≡ stored_with (pending_file lesson_attachment l.school_id user none (some lesson) f)))
  unfolding upload_for_lesson
  for_lesson-cases lesson = elim (Action-cases (Lessons.find_reachable user lesson) db) [
    | inl (e, d, far) ↦ inl (
      e,
      >>=-err (Lessons.find_reachable user lesson)
          (λ r.
            store_file max_bytes max_school_bytes now save
              (pending_file lesson_attachment r.school_id user none (some lesson) f) f)
          db db (threw_here (find_reachable-state user lesson db) far),
    )
    | inr (l, d, near) ↦ inr (
      l,
      >>=-ok (Lessons.find_reachable user lesson)
          (λ r.
            store_file max_bytes max_school_bytes now save
              (pending_file lesson_attachment r.school_id user none (some lesson) f) f)
          db db (returned_here (find_reachable-state user lesson db) near),
    )
  ]

  -- Whatever the three uploads answer, a school within its quota stays within it: the bytes of the
  -- files that are recorded for it, those of unfinished uploads included.
  pub uploads_within_quota :
      (school student lesson : Key)
      → stored_bytes school db.files ≤ max_school_bytes
      → (stored_bytes school (for_student student).1.files ≤ max_school_bytes)
        × (stored_bytes school (for_lesson lesson).1.files ≤ max_school_bytes)
        × (stored_bytes school to_library.1.files ≤ max_school_bytes)
  unfolding upload_to_library
  uploads_within_quota school student lesson before =
      let kept = λ (row : FileRow) (sized : row.size_bytes ≡ f.size).
        store_file-quota max_bytes max_school_bytes now save row f db school sized before in
      (
        elim (for_student-cases student) [
          | inl (e, refused) ↦ rw refused before
          | inr (s, same) ↦ rw same (kept _ refl)
        ],
        elim (for_lesson-cases lesson) [
          | inl (e, refused) ↦ rw refused before
          | inr (l, same) ↦ rw same (kept _ refl)
        ],
        kept _ refl,
      )
