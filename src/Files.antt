-- ===== src/Files.antt =====
-- src/files/files.service.ts: uploads, with the limits of a file and of a school, and who reaches a file.
-- The storage of the bytes is a parameter: `save` says whether a save under a key returned. The two
-- limits come from the configuration.
pub mod Signatures
pub mod Uploads
pub mod Pending
pub mod Matching
pub mod Reach
use tutor_app_back.Students
use tutor_app_back.Lessons
use tutor_app_back.Files.Signatures.{
  jpeg, png, heic, webp, pdf, plain, word, word_document, spreadsheet, bytes_look_like,
}
use tutor_app_back.Prelude.{
  ℕ, ◌+◌, Bool, true, false, not, ◌&&◌, ◌||◌, Option, none, some, List, [], ◌∷◌, ltb, ◌==◌,
  if◌then◌else◌, any, take,
}
use tutor_app_back.Prelude.Int.{ℤ}
use tutor_app_back.Prelude.Table.{Key, Table, lookup, modify, erase, append, find_many}
use tutor_app_back.Model.{
  is_admin, FilePurpose, lesson_attachment, student_attachment, tutor_library, User, StorageKey,
  pending, key_for, FileRow, file_not_found, only_uploader_can_remove, file_empty, file_too_large,
  quota_exceeded, unsupported_type, storage_failed, unique_violation, ok, Action, pure, throw, gets,
  or_throw, ◌>>=◌, ◌>>◌, throw_if, write, is_key,
}
use tutor_app_back.Model.Text.{Text, text_eq}

pub record IncomingFile : Type 0 where
  pub original_name : Text
  pub mime_type : Text
  pub size : ℕ
  pub buffer : List ℕ

-- `ALLOWED_MIME_TYPES`
abbrev pub allowed_mime_types : List Text
allowed_mime_types =
    jpeg ∷ png ∷ heic ∷ webp ∷ pdf ∷ plain ∷ word ∷ word_document ∷ spreadsheet ∷ []

abbrev pub is_allowed : Text → Bool
is_allowed mime = any (text_eq mime) allowed_mime_types

unfoldable pub assert_acceptable : ℕ → IncomingFile → Action (Unit {0})
unfolding bytes_look_like
assert_acceptable max_bytes f = do
  throw_if (f.size == 0) file_empty
  throw_if (ltb max_bytes f.size) file_too_large
  throw_if (not (is_allowed f.mime_type)) unsupported_type
  throw_if (not (bytes_look_like f.mime_type f.buffer)) unsupported_type

-- `aggregate` of the sizes of the files of a school, nothing as 0.
abbrev pub stored_bytes : Key → Table FileRow → ℕ
stored_bytes school [] = 0
stored_bytes school ((k, f) ∷ t) =
    if f.school_id == school then f.size_bytes + stored_bytes school t else stored_bytes school t

unfoldable pub assert_within_quota : ℕ → Key → ℕ → Action (Unit {0})
assert_within_quota max_school_bytes school incoming db =
    throw_if (ltb max_school_bytes (stored_bytes school db.files + incoming)) quota_exceeded db

abbrev pub storage_key_eq : StorageKey → StorageKey → Bool
storage_key_eq pending pending = true
storage_key_eq (key_for a b) (key_for c d) = a == c && b == d
storage_key_eq _ _ = false

-- The unique index on the storage key, over all rows but one.
abbrev pub is_key_taken : Key → StorageKey → Table FileRow → Bool
is_key_taken id key [] = false
is_key_taken id key ((k, f) ∷ t) =
    (not (k == id) && storage_key_eq f.storage_key key) || is_key_taken id key t

-- `file.create` and the index behind it
abbrev pub insert_file : FileRow → Action Key
insert_file f db =
    if is_key_taken db.next_id f.storage_key db.files then throw unique_violation db else (
      ok db.next_id,
      record db { files = append db.next_id f db.files; next_id = db.next_id + 1 },
    )

abbrev pub finalised : StorageKey → ℤ → FileRow → FileRow
finalised key now f = record f { storage_key = key; uploaded_at = some now }

-- `file.update` of the key and the time, and the index behind it
abbrev pub finalise : Key → StorageKey → ℤ → FileRow → Action FileRow
finalise id key now f db =
    if is_key_taken id key db.files
    then throw unique_violation db
    else (ok (finalised key now f), record db { files = modify id (finalised key now) db.files })

-- The row that an upload starts with.
abbrev pub pending_file :
    FilePurpose → Key → User → Option Key → Option Key → IncomingFile → FileRow
pending_file purpose school user student lesson f = record {
  storage_key = pending;
  original_name = take 255 f.original_name;
  mime_type = f.mime_type;
  size_bytes = f.size;
  purpose = purpose;
  uploaded_at = none;
  school_id = school;
  uploaded_by_id = user.id;
  student_id = student;
  lesson_id = lesson;
}

module _ (max_bytes max_school_bytes : ℕ) (now : ℤ) (save : StorageKey → List ℕ → Bool) where
  -- The part that the three uploads share: the row, then the bytes, then the key of the row.
  unfoldable pub store_file : FileRow → IncomingFile → Action FileRow
  unfolding assert_within_quota
  store_file row f = do
    assert_acceptable max_bytes f
    assert_within_quota max_school_bytes row.school_id f.size
    id ← insert_file row
    throw_if (not (save (key_for row.school_id id) f.buffer)) storage_failed
    finalise id (key_for row.school_id id) now row

  unfoldable pub upload_for_student : User → Key → IncomingFile → Action FileRow
  unfolding Students.find_one store_file
  upload_for_student user student f = do
    s ← Students.find_one user student
    store_file (pending_file student_attachment s.school_id user (some student) none f) f

  unfoldable pub upload_for_lesson : User → Key → IncomingFile → Action FileRow
  unfolding Lessons.find_reachable store_file
  upload_for_lesson user lesson f = do
    l ← Lessons.find_reachable user lesson
    store_file (pending_file lesson_attachment l.school_id user none (some lesson) f) f

  unfoldable pub upload_to_library : User → IncomingFile → Action FileRow
  unfolding store_file
  upload_to_library user f =
      store_file (pending_file tutor_library user.school_id user none none f) f

-- `findReachable`: the school, then the student or the lesson of the file, then its shelf.
abbrev pub is_library : FilePurpose → Bool
is_library tutor_library = true
is_library _ = false

-- The check through the student or through the lesson, where there is one.
unfoldable pub through_student : User → Option Key → Action (Unit {0})
unfolding Students.find_one
through_student user none = pure tt
through_student user (some s) = Students.find_one user s >> pure tt

unfoldable pub through_lesson : User → Option Key → Action (Unit {0})
unfolding Lessons.find_reachable
through_lesson user none = pure tt
through_lesson user (some l) = Lessons.find_reachable user l >> pure tt

unfoldable pub find_reachable : User → Key → Action FileRow
unfolding through_student through_lesson
find_reachable user id = do
  found ← gets (λ db. lookup id db.files)
  f ← or_throw found file_not_found
  throw_if (not (f.school_id == user.school_id)) file_not_found
  through_student user f.student_id
  through_lesson user f.lesson_id
  throw_if (is_library f.purpose && (not (f.uploaded_by_id == user.id) && not (is_admin user.role)))
      file_not_found
  pure f

-- The row goes first and then the bytes, whose removal is the storage's.
unfoldable pub remove : User → Key → Action (Unit {0})
unfolding find_reachable
remove user id = do
  f ← find_reachable user id
  throw_if (not (f.uploaded_by_id == user.id) && not (is_admin user.role)) only_uploader_can_remove
  write (λ db. record db { files = erase id db.files })

-- The rows behind the listings, before their order.
unfoldable pub list_for_student : User → Key → Action (Table FileRow)
unfolding Students.find_one
list_for_student user student = do
  Students.find_one user student
  gets (λ db. find_many (λ f. is_key student f.student_id) db.files)

unfoldable pub list_for_lesson : User → Key → Action (Table FileRow)
unfolding Lessons.find_reachable
list_for_lesson user lesson = do
  Lessons.find_reachable user lesson
  gets (λ db. find_many (λ f. is_key lesson f.lesson_id) db.files)

unfoldable pub list_own_library : User → Action (Table FileRow)
list_own_library user = gets (λ db.
    find_many
      (λ f. f.school_id == user.school_id && (is_library f.purpose && f.uploaded_by_id == user.id))
      db.files)

-- What the storage reads under a key, nothing where it throws.
unfoldable pub open_file : (StorageKey → Option (List ℕ)) → User → Key → Action (FileRow × List ℕ)
unfolding find_reachable
open_file reads user id = do
  file ← find_reachable user id
  bytes ← or_throw (reads file.storage_key) storage_failed
  pure (file, bytes)
