-- ===== src/Storage/Kept.antt =====
-- src/files/files.service.ts with the bytes: the uploads, the opening and the removal over the rows and a storage together.
use tutor_app_back.Files.{
  insert_file, assert_acceptable, finalise, pending_file, IncomingFile, assert_within_quota,
  open_file,
}
use tutor_app_back.Storage.{Storage}
use tutor_app_back.Files
use tutor_app_back.Students
use tutor_app_back.Lessons
use tutor_app_back.Prelude.{ℕ, Bool, not, ◌&&◌, none, some, List, ◌==◌}
use tutor_app_back.Prelude.Int.{ℤ}
use tutor_app_back.Prelude.Table.{Key, erase}
use tutor_app_back.Model.{
  is_admin, lesson_attachment, student_attachment, tutor_library, User, StorageKey, key_for,
  FileRow, Db, only_uploader_can_remove, storage_failed, Result, ok, err, Action, ◌>>◌, throw_if,
  write,
}

module _ (S : Storage) where
  -- What a handler answers, and the rows and the bytes that it leaves.
  abbrev pub Kept : Type 0 → Type 0
  Kept A = Db → S.State → (Result A × Db) × S.State

  -- A step on the rows, then the rest unless it throws.
  abbrev pub and_then : {A B : Type 0} → Action A → (A → Kept B) → Kept B
  and_then m rest db s = elim ((m db).0) [
    | err e ↦ ((err e, (m db).1), s)
    | ok a ↦ rest a (m db).1 s
  ]

  -- The bytes, and the key of the row once they are saved.
  abbrev pub save_bytes : ℤ → FileRow → IncomingFile → Key → Kept FileRow
  save_bytes now row f id db s =
      let key : StorageKey = key_for row.school_id id in
      let saved : Bool × S.State = S.save s key f.buffer in
      ((throw_if (not saved.0) storage_failed >> finalise id key now row) db, saved.1)

  module _ (max_bytes max_school_bytes : ℕ) (now : ℤ) where
    unfoldable pub store_with : FileRow → IncomingFile → Kept FileRow
    unfolding assert_within_quota
    store_with row f = and_then (assert_acceptable max_bytes f) (λ _.
        and_then (assert_within_quota max_school_bytes row.school_id f.size)
          (λ _. and_then (insert_file row) (save_bytes now row f)))

    unfoldable pub student_upload : User → Key → IncomingFile → Kept FileRow
    unfolding Students.find_one store_with
    student_upload user student f =
        and_then (Students.find_one user student) (λ s.
          store_with (pending_file student_attachment s.school_id user (some student) none f) f)

    unfoldable pub lesson_upload : User → Key → IncomingFile → Kept FileRow
    unfolding Lessons.find_reachable store_with
    lesson_upload user lesson f =
        and_then (Lessons.find_reachable user lesson)
          (λ l. store_with (pending_file lesson_attachment l.school_id user none (some lesson) f) f)

    unfoldable pub library_upload : User → IncomingFile → Kept FileRow
    unfolding store_with
    library_upload user f =
        store_with (pending_file tutor_library user.school_id user none none f) f

  -- `open`
  unfoldable pub open_kept : User → Key → Kept (FileRow × List ℕ)
  unfolding open_file
  open_kept user id db s = (open_file (S.read s) user id db, s)

  -- The bytes go after the row.
  unfoldable pub remove_kept : User → Key → Kept (Unit {0})
  unfolding Files.find_reachable
  remove_kept user id = and_then (Files.find_reachable user id) (λ file.
      and_then
        (throw_if (not (file.uploaded_by_id == user.id) && not (is_admin user.role))
          only_uploader_can_remove)
        (λ _.
          and_then (write (λ db. record db { files = erase id db.files }))
            (λ _ db s. ((ok tt, db), S.remove s file.storage_key))))
