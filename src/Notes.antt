-- ===== src/Notes.antt =====
-- src/notes/notes.service.ts: notes on a student and notes on a lesson.
use tutor_app_back.Files.{through_student, through_lesson}
use tutor_app_back.Students
use tutor_app_back.Lessons
use tutor_app_back.Prelude.{◌+◌, Bool, not, ◌&&◌, none, some, ◌==◌}
use tutor_app_back.Prelude.Table.{Key, Table, lookup, erase, append, find_many}
use tutor_app_back.Model.{
  is_admin, User, NoteRow, note_not_found, only_author_can_remove, ok, Action, gets, or_throw,
  ◌>>=◌, ◌>>◌, throw_if, write, is_key,
}
use tutor_app_back.Model.Text.{Text, trim}

abbrev pub about_student : Key → NoteRow → Bool
about_student student n = is_key student n.student_id

abbrev pub about_lesson : Key → NoteRow → Bool
about_lesson lesson n = is_key lesson n.lesson_id

-- The notes of a student, before their ordering.
unfoldable pub list_for_student : User → Key → Action (Table NoteRow)
unfolding Students.find_one
list_for_student user student = do
  Students.find_one user student
  gets (λ db. find_many (about_student student) db.notes)

unfoldable pub list_for_lesson : User → Key → Action (Table NoteRow)
unfolding Lessons.find_reachable
list_for_lesson user lesson = do
  Lessons.find_reachable user lesson
  gets (λ db. find_many (about_lesson lesson) db.notes)

abbrev pub insert_note : NoteRow → Action Key
insert_note n db =
    (ok db.next_id, record db { notes = append db.next_id n db.notes; next_id = db.next_id + 1 })

unfoldable pub add_for_student : User → Key → Text → Action Key
unfolding Students.find_one
add_for_student user student text = do
  Students.find_one user student
  insert_note (record {
    text = trim text;
    author_id = user.id;
    student_id = some student;
    lesson_id = none;
  })

unfoldable pub add_for_lesson : User → Key → Text → Action Key
unfolding Lessons.find_reachable
add_for_lesson user lesson text = do
  Lessons.find_reachable user lesson
  insert_note
      (record { text = trim text; author_id = user.id; student_id = none; lesson_id = some lesson })

-- What the note is on proves that the caller reaches it, as it does for a file.
unfoldable pub remove : User → Key → Action (Unit {0})
remove user id = do
  found ← gets (λ db. lookup id db.notes)
  n ← or_throw found note_not_found
  through_student user n.student_id
  through_lesson user n.lesson_id
  throw_if (not (n.author_id == user.id) && not (is_admin user.role)) only_author_can_remove
  write (λ db. record db { notes = erase id db.notes })
