-- ===== src/Tests/Shelf.antt =====
-- Uploads and the removal of a group, evaluated on the small school.
use tutor_app_back.Groups
use tutor_app_back.Files
use tutor_app_back.Files.{
  IncomingFile, assert_acceptable, is_key_taken, stored_bytes, pending_file, finalised,
  upload_for_student, upload_for_lesson, upload_to_library,
}
use tutor_app_back.Files.Signatures.{Signature, matches, pdf, bytes_look_like}
use tutor_app_back.Files.Matching.{matches_iff}
use tutor_app_back.Files.Uploads.{uploads_within_quota}
use tutor_app_back.Files.Pending.{
  HasPending, Refused, pending_blocks_uploads, failed_save-HasPending,
}
use tutor_app_back.Files.Reach.{file-find_reachable_safe}
use tutor_app_back.Gradebook.Removal.{remove_group_keeps_marks}
use tutor_app_back.Gradebook.Journal.{find_line}
use tutor_app_back.Tests.{teacher, colleague, north}
use tutor_app_back.Access.{Reaches}
use tutor_app_back.Prelude.{
  ℕ, ◌≤◌, ◌≡◌, refl, ◌↔◌, ◌⊎◌, Bool, true, false, none, some, List, [], ◌∷◌, ◌++◌, arith,
  if◌then◌else◌, length,
}
use tutor_app_back.Prelude.Int.{pos}
use tutor_app_back.Prelude.Table.{Key, lookup, KeysBelow}
use tutor_app_back.Model.{
  admin, tutor_library, StudentRow, LessonRow, GradeRow, StorageKey, key_for, FileRow, Db,
  storage_failed, ok, err, is_key, is_deleted_ref,
}
use tutor_app_back.Model.Text.{ascii}

abbrev sheet : IncomingFile
sheet = record {
  original_name = ascii "sheet.pdf";
  mime_type = pdf;
  size = 8;
  buffer = ascii "%PDF-1.7";
}

-- A storage that saves everything, and one that saves nothing.
abbrev saves : StorageKey → List ℕ → Bool
saves _ _ = true

abbrev fails : StorageKey → List ℕ → Bool
fails _ _ = false

abbrev left_behind : FileRow
left_behind = pending_file tutor_library 1 teacher none none sheet

abbrev stuck : Db
stuck = record north { files = (90, left_behind) ∷ [] }

abbrev shelf_row : FileRow
shelf_row = finalised (key_for 1 90) (pos 5) left_behind

abbrev shelved : Db
shelved = record north { files = (90, shelf_row) ∷ [] }

abbrev header : Signature
header = record { offset = 4; bytes = ascii "ftyp" }

matches_iff_example : (matches (ascii "....ftypheic") header ≡ true) ↔ (
    (front : List ℕ) × (rest : List ℕ) × (length front ≡ 4)
    × (ascii "....ftypheic" ≡ front ++ (ascii "ftyp" ++ rest)))
matches_iff_example = matches_iff (ascii "....ftypheic") header

uploads_within_quota_example :
    (stored_bytes 1 (upload_for_student 100 20 (pos 9) saves teacher 20 sheet shelved).1.files ≤ 20)
    × (stored_bytes 1 (upload_for_lesson 100 20 (pos 9) saves teacher 40 sheet shelved).1.files
        ≤ 20)
    × (stored_bytes 1 (upload_to_library 100 20 (pos 9) saves teacher sheet shelved).1.files ≤ 20)
uploads_within_quota_example =
    uploads_within_quota 100 20 (pos 9) saves teacher sheet shelved 1 20 40 (omega arith)

pending_blocks_uploads_example :
    Refused (upload_for_student 100 20 (pos 9) saves colleague 20 sheet stuck) stuck
    × Refused (upload_for_lesson 100 20 (pos 9) saves colleague 40 sheet stuck) stuck
    × Refused (upload_to_library 100 20 (pos 9) saves colleague sheet stuck) stuck
pending_blocks_uploads_example =
    pending_blocks_uploads 100 20 (pos 9) saves stuck (90, left_behind, refl, refl)
      (omega arith, tt) colleague 20 40 sheet

acceptable : assert_acceptable 100 sheet north ≡ (ok tt, north)
unfolding assert_acceptable bytes_look_like matches
acceptable = refl

failed_save-HasPending_example :
    (d : Db) × (upload_to_library 100 20 (pos 9) fails teacher sheet north
      ≡ (err storage_failed, d))
    × HasPending d
    × KeysBelow d.next_id d.files
failed_save-HasPending_example =
    failed_save-HasPending 100 20 (pos 9) fails teacher sheet north acceptable (omega arith) refl tt
      refl

reached : Files.find_reachable teacher 90 shelved ≡ (ok shelf_row, shelved)
unfolding Files.find_reachable
reached = refl

file-find_reachable_safe_example :
    (shelved ≡ shelved)
    × (lookup 90 shelved.files ≡ some shelf_row)
    × (shelf_row.school_id ≡ teacher.school_id)
    × ((k : Key) (s : StudentRow)
        → shelf_row.student_id ≡ some k
        → lookup k shelved.students ≡ some s
        → Reaches teacher s.school_id s.tutor_id)
    × ((k : Key) (l : LessonRow)
        → shelf_row.lesson_id ≡ some k
        → lookup k shelved.lessons ≡ some l
        → Reaches teacher l.school_id l.tutor_id)
    × (shelf_row.purpose ≡ tutor_library
        → (shelf_row.uploaded_by_id ≡ teacher.id) ⊎ (teacher.role ≡ admin))
file-find_reachable_safe_example = file-find_reachable_safe teacher 90 shelved reached

removed : Groups.remove teacher 30 north ≡ (ok tt, (Groups.remove teacher 30 north).1)
unfolding Groups.remove
removed = refl

remove_group_keeps_marks_example :
    ((k : Key) (g : GradeRow)
      → lookup k north.grades ≡ some g
      → lookup k (Groups.remove teacher 30 north).1.grades
        ≡ some (record g {
          lesson_id =
              if is_deleted_ref (λ l. is_key 30 l.group_id) north.lessons g.lesson_id
              then none
              else g.lesson_id;
        }))
    × ((lesson student : Key) (l : LessonRow)
        → lookup lesson north.lessons ≡ some l
        → l.group_id ≡ some 30
        → find_line lesson student (Groups.remove teacher 30 north).1.attendances ≡ none)
remove_group_keeps_marks_example = remove_group_keeps_marks teacher 30 north removed
