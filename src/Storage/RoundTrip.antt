-- ===== src/Storage/RoundTrip.antt =====
-- What a caller of src/files/files.service.ts opens after an upload.
use tutor_app_back.Files.{
  open_file, storage_key_eq, is_library, IncomingFile, through_student, through_lesson, finalised,
  pending_file,
}
use tutor_app_back.Storage.{Storage, IsLawful}
use tutor_app_back.Storage.Kept.{
  Kept, student_upload, lesson_upload, library_upload, open_kept, store_with,
}
use tutor_app_back.Storage.Steps.{Stored, and_then-returned, store_with-returned}
use tutor_app_back.Access.{
  student-find_one_iff, find_reachable_iff, student-find_one-state, find_reachable-state,
}
use tutor_app_back.Files
use tutor_app_back.Students
use tutor_app_back.Lessons
use tutor_app_back.Prelude.{
  ℕ, ◌≡◌, refl, sym, ap, ◌∙◌, Bool, true, false, not, ◌&&◌, none, some, arith, ◌==◌,
}
use tutor_app_back.Prelude.Int.{ℤ}
use tutor_app_back.Prelude.Table.{
  Key, Table, lookup, modify, append, lookup-modify, lookup-append, KeysBelow, lookup_fresh,
}
use tutor_app_back.Model.{
  is_admin, lesson_attachment, student_attachment, tutor_library, User, StudentRow, LessonRow,
  StorageKey, key_for, FileRow, Db, Error, file_not_found, storage_failed, ok, Action, pure,
  or_throw, ◌>>=◌, ◌>>◌, throw_if, >>=-ok,
}

-- Where an upload goes.
pub data Shelf : Type 0 where
  of_student : Key → Shelf
  of_lesson : Key → Shelf
  own_library : Shelf

abbrev pub upload : (S : Storage) → ℕ → ℕ → ℤ → User → Shelf → IncomingFile → Kept S FileRow
upload S max_bytes max_school_bytes now user (of_student k) f =
    student_upload S max_bytes max_school_bytes now user k f
upload S max_bytes max_school_bytes now user (of_lesson k) f =
    lesson_upload S max_bytes max_school_bytes now user k f
upload S max_bytes max_school_bytes now user own_library f =
    library_upload S max_bytes max_school_bytes now user f

-- Only the files and the next id differ.
abbrev SameRows : Db → Db → Type 0
SameRows d db = (d.students ≡ db.students) × (d.lessons ≡ db.lessons)

through_student-kept :
    (user : User) (k : Key) (s : StudentRow) (db d : Db)
    → SameRows d db
    → Students.find_one user k db ≡ (ok s, db)
    → (through_student user (some k) d ≡ (ok tt, d)) × (s.school_id ≡ user.school_id)
unfolding through_student
through_student-kept user k s db d (same, _) h =
    let (found, reaches) = (student-find_one_iff user k db s).0 h in
    let again = (student-find_one_iff user k d s).1 (rw same (found, reaches)) in
    (>>=-ok (Students.find_one user k) (λ _. pure tt) d d again, reaches.0)

through_lesson-kept :
    (user : User) (k : Key) (l : LessonRow) (db d : Db)
    → SameRows d db
    → Lessons.find_reachable user k db ≡ (ok l, db)
    → (through_lesson user (some k) d ≡ (ok tt, d)) × (l.school_id ≡ user.school_id)
unfolding through_lesson
through_lesson-kept user k l db d (_, same) h =
    let (found, reaches) = (find_reachable_iff user k db l).0 h in
    let again = (find_reachable_iff user k d l).1 (rw same (found, reaches)) in
    (>>=-ok (Lessons.find_reachable user k) (λ _. pure tt) d d again, reaches.0)

guards_open :
    (m₁ m₂ : Action (Unit {0})) (e₁ e₂ : Error) (a b : Bool) (g : FileRow) (db : Db)
    → a ≡ false
    → m₁ db ≡ (ok tt, db)
    → m₂ db ≡ (ok tt, db)
    → b ≡ false
    → (throw_if a e₁ >> (m₁ >> (m₂ >> (throw_if b e₂ >> pure g)))) db ≡ (ok g, db)
guards_open m₁ m₂ e₁ e₂ true b g db h first second h' = absurd (cc)
guards_open m₁ m₂ e₁ e₂ false true g db h first second h' = absurd (cc)
guards_open m₁ m₂ e₁ e₂ false false g db h first second h' =
    >>=-ok m₁ (λ _. m₂ >> (throw_if false e₂ >> pure g)) db db first
    ∙ >>=-ok m₂ (λ _. throw_if false e₂ >> pure g) db db second

find_reachable-file :
    (user : User) (id : Key) (f : FileRow) (d : Db)
    → lookup id d.files ≡ some f
    → f.school_id ≡ user.school_id
    → through_student user f.student_id d ≡ (ok tt, d)
    → through_lesson user f.lesson_id d ≡ (ok tt, d)
    → f.uploaded_by_id ≡ user.id
    → Files.find_reachable user id d ≡ (ok f, d)
unfolding Files.find_reachable
find_reachable-file user id f d found own first second mine =
    rw (found, Files.find_reachable)
      (guards_open (through_student user f.student_id) (through_lesson user f.lesson_id)
        file_not_found file_not_found (not (f.school_id == user.school_id))
        (is_library f.purpose && (not (f.uploaded_by_id == user.id) && not (is_admin user.role))) f
        d (ground (arith, own)) first second (ground (arith, mine)))

lookup_appended :
    (n : ℕ) (g : FileRow → FileRow) (row : FileRow) (t : Table FileRow)
    → KeysBelow n t
    → lookup n (modify n g (append n row t)) ≡ some (g row)
lookup_appended n g row t below =
    ground (
      arith,
      lookup-modify n n g (append n row t),
      lookup-append n n row t (lookup_fresh n t below),
    )

module _ (S : Storage) (user : User) (f : IncomingFile) (db : Db) (s : S.State) (file : FileRow)
    (d : Db) (t : S.State) where
  -- The file opens with its bytes, and the bytes under any other key are those from before.
  abbrev pub OpensOnly : Type 0
  OpensOnly =
      (open_kept S user db.next_id d t ≡ ((ok (file, f.buffer), d), t))
      × ((key : StorageKey)
          → storage_key_eq key file.storage_key ≡ false
          → S.read t key ≡ S.read s key)

module _ (S : Storage) (lawful : IsLawful S) (max_bytes max_school_bytes : ℕ) (now : ℤ)
    (user : User) (f : IncomingFile) (db : Db) (s : S.State) (file : FileRow) (d : Db)
    (t : S.State) where
  stored-OpensOnly :
      (row : FileRow)
      → Stored S max_bytes max_school_bytes now f s row db file d t
      → KeysBelow db.next_id db.files
      → row.school_id ≡ user.school_id
      → row.uploaded_by_id ≡ user.id
      → through_student user row.student_id d ≡ (ok tt, d)
      → through_lesson user row.lesson_id d ≡ (ok tt, d)
      → OpensOnly S user f db s file d t
  unfolding open_kept open_file
  stored-OpensOnly row (kept, wrote, saved, final) below own mine first second =
      let key : StorageKey = key_for row.school_id db.next_id in
      let found : lookup db.next_id d.files ≡ some file =
        ap (λ (x : Db). lookup db.next_id x.files) wrote
        ∙ (lookup_appended db.next_id (finalised key now) row db.files below
            ∙ ap (λ r. some r) (sym kept)) in
      let reached : Files.find_reachable user db.next_id d ≡ (ok file, d) =
        find_reachable-file user db.next_id file d found
          (ap (λ (r : FileRow). r.school_id) kept ∙ own)
          (ap (λ (r : FileRow). through_student user r.student_id d) kept ∙ first)
          (ap (λ (r : FileRow). through_lesson user r.lesson_id d) kept ∙ second)
          (ap (λ (r : FileRow). r.uploaded_by_id) kept ∙ mine) in
      let held : S.read t file.storage_key ≡ some f.buffer =
        ap (λ x. S.read x file.storage_key) final
        ∙ (ap (λ (r : FileRow). S.read (S.save s key f.buffer).1 r.storage_key) kept
            ∙ lawful.read-save s key f.buffer saved) in
      (
        ap (λ p. (p, t))
            (>>=-ok (Files.find_reachable user db.next_id)
                (λ g.
                  or_throw (S.read t g.storage_key) storage_failed >>= (λ bytes. pure (g, bytes)))
                d d reached
              ∙ rw held refl),
        λ other_key apart.
            ap (λ x. S.read x other_key) final
            ∙ lawful.read_other-save s key other_key f.buffer
                (ap (λ (r : FileRow). storage_key_eq other_key r.storage_key) (sym kept) ∙ apart),
      )

  -- Over a storage that keeps its promise, with fresh ids: after an upload to a student, a lesson or the library that
  -- returned, the uploader opens the file and gets the bytes they sent, and the bytes under any other key are as before.
  pub upload-OpensOnly :
      (shelf : Shelf)
      → KeysBelow db.next_id db.files
      → upload S max_bytes max_school_bytes now user shelf f db s ≡ ((ok file, d), t)
      → OpensOnly S user f db s file d t
  unfolding student_upload lesson_upload library_upload through_lesson through_student
  upload-OpensOnly own_library below h =
      let row : FileRow = pending_file tutor_library user.school_id user none none f in
      stored-OpensOnly row
        (store_with-returned S max_bytes max_school_bytes now f s row db file d t h) below refl refl
        refl refl
  upload-OpensOnly (of_student k) below h =
      let (r, d₁, found, h₁) =
        and_then-returned S (Students.find_one user k)
          (λ r.
            store_with S max_bytes max_school_bytes now
              (pending_file student_attachment r.school_id user (some k) none f) f)
          db s file d t h in
      let here : d₁ ≡ db = sym (ap (λ p. p.1) found) ∙ student-find_one-state user k db in
      let row : FileRow = pending_file student_attachment r.school_id user (some k) none f in
      let stored =
        store_with-returned S max_bytes max_school_bytes now f s row db file d t
          (ap (λ x. store_with S max_bytes max_school_bytes now row f x s) (sym here) ∙ h₁) in
      let (opened, own) =
        through_student-kept user k r db d
          (ap (λ (x : Db). x.students) stored.1, ap (λ (x : Db). x.lessons) stored.1)
          (found ∙ ap (λ x. (ok r, x)) here) in
      stored-OpensOnly row stored below own refl opened refl
  upload-OpensOnly (of_lesson k) below h =
      let (r, d₁, found, h₁) =
        and_then-returned S (Lessons.find_reachable user k)
          (λ r.
            store_with S max_bytes max_school_bytes now
              (pending_file lesson_attachment r.school_id user none (some k) f) f)
          db s file d t h in
      let here : d₁ ≡ db = sym (ap (λ p. p.1) found) ∙ find_reachable-state user k db in
      let row : FileRow = pending_file lesson_attachment r.school_id user none (some k) f in
      let stored =
        store_with-returned S max_bytes max_school_bytes now f s row db file d t
          (ap (λ x. store_with S max_bytes max_school_bytes now row f x s) (sym here) ∙ h₁) in
      let (opened, own) =
        through_lesson-kept user k r db d
          (ap (λ (x : Db). x.students) stored.1, ap (λ (x : Db). x.lessons) stored.1)
          (found ∙ ap (λ x. (ok r, x)) here) in
      stored-OpensOnly row stored below own refl refl opened
