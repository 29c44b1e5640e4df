-- ===== src/Gradebook/Journal.antt =====
-- `GradebookService.writeJournal` of src/gradebook/gradebook.service.ts: the register of a lesson and the
-- balances that it moves, in one transaction.
pub mod Outcome
pub mod Balance
pub mod Register
pub mod Settlement
pub mod Repeat
use tutor_app_back.Lessons.{find_reachable, student_ids_for}
use tutor_app_back.Prelude.{
  Bool, true, false, not, ◌&&◌, Option, none, some, List, [], ◌∷◌, ◌==◌, if◌then◌else◌, is_some,
  get_or, length, any, contains, add_key,
}
use tutor_app_back.Prelude.Int.{ℤ, pos, negsuc, ◌+ℤ◌}
use tutor_app_back.Prelude.Table.{Key, lookup, modify}
use tutor_app_back.Model.{
  LessonStatus, completed, cancelled, AttendanceStatus, present, late, absent_excused,
  absent_unexcused, User, StudentRow, LessonRow, AttendanceRow, student_not_in_lesson,
  one_entry_per_student, record_missing, ok, Action, pure, throw, gets, transaction, ◌>>=◌, ◌>>◌,
  throw_if, write,
}
use tutor_app_back.Model.Text.{Text, trim, or_null}

-- The set `CHARGED`
abbrev pub charged : AttendanceStatus → Bool
charged present = true
charged late = true
charged absent_unexcused = true
charged absent_excused = false

pub record MarkAttendance : Type 0 where
  pub student_id : Key
  pub status : AttendanceStatus
  -- absent, `null`, or a value
  pub homework_done : Option (Option Bool)

pub record WriteJournal : Type 0 where
  pub topic : Option Text
  pub homework : Option Text
  pub attendance : Option (List MarkAttendance)
  pub status : Option LessonStatus

-- What the marks of one call say about the lesson; nothing where there are none.
abbrev pub status_from_register : List MarkAttendance → Option LessonStatus
status_from_register [] = none
status_from_register (m ∷ ms) =
    if any (λ (x : MarkAttendance). charged x.status) (m ∷ ms)
    then some completed
    else some cancelled

-- The unique key of a line of the register.
abbrev pub is_line : Key → Key → AttendanceRow → Bool
is_line lesson student a = a.lesson_id == lesson && a.student_id == student

abbrev pub find_line : Key → Key → List AttendanceRow → Option AttendanceRow
find_line lesson student [] = none
find_line lesson student (a ∷ rows) =
    if is_line lesson student a then some a else find_line lesson student rows

abbrev pub update_line : MarkAttendance → AttendanceRow → AttendanceRow
update_line m a = record a {
  status = m.status;
  homework_done = get_or m.homework_done a.homework_done;
}

abbrev pub new_line : Key → MarkAttendance → AttendanceRow
new_line lesson m = record {
  lesson_id = lesson;
  student_id = m.student_id;
  status = m.status;
  homework_done = get_or m.homework_done none;
}

-- `lessonAttendance.upsert`
abbrev pub upsert_line : Key → MarkAttendance → List AttendanceRow → List AttendanceRow
upsert_line lesson m [] = new_line lesson m ∷ []
upsert_line lesson m (a ∷ rows) =
    if is_line lesson m.student_id a then update_line m a ∷ rows else a ∷ upsert_line lesson m rows

-- `existing ? CHARGED.has(existing.status) : false`
abbrev pub was_charged : Option AttendanceRow → Bool
was_charged none = false
was_charged (some a) = charged a.status

abbrev pub add_balance : ℤ → StudentRow → StudentRow
add_balance change s = record s { paid_lessons_left = s.paid_lessons_left +ℤ change }

-- `student.update` of the balance, which fails where there is no such student
abbrev pub change_balance : Key → ℤ → Action (Unit {0})
change_balance student change db =
    if is_some (lookup student db.students)
    then (ok tt, record db { students = modify student (add_balance change) db.students })
    else throw record_missing db

-- One lesson is taken when a student becomes charged, and given back when they stop being so.
abbrev pub settle : Key → Bool → Bool → Action (Unit {0})
settle student true true = pure tt
settle student false false = pure tt
settle student false true = change_balance student (negsuc 0)
settle student true false = change_balance student (pos 1)

unfoldable pub write_mark : Key → MarkAttendance → Action (Unit {0})
write_mark lesson m = do
  existing ← gets (λ db. find_line lesson m.student_id db.attendances)
  settle m.student_id (was_charged existing) (charged m.status)
  write (λ db. record db { attendances = upsert_line lesson m db.attendances })

unfoldable pub write_marks : Key → List MarkAttendance → Action (Unit {0})
write_marks lesson [] = pure tt
write_marks lesson (m ∷ ms) = write_mark lesson m >> write_marks lesson ms

-- `new Set(ids)`, built in order
abbrev pub key_set_from : List Key → List Key → List Key
key_set_from acc [] = acc
key_set_from acc (k ∷ ks) = key_set_from (add_key k acc) ks

abbrev pub marked_ids : List MarkAttendance → List Key
marked_ids [] = []
marked_ids (m ∷ ms) = m.student_id ∷ marked_ids ms

abbrev pub has_duplicates : List MarkAttendance → Bool
has_duplicates ms = not (length (key_set_from [] (marked_ids ms)) == length ms)

abbrev pub has_stranger : List Key → List MarkAttendance → Bool
has_stranger eligible ms = any (λ (m : MarkAttendance). not (contains m.student_id eligible)) ms

-- The checks on a register that is not empty.
unfoldable pub check_marks : Key → List MarkAttendance → Action (Unit {0})
check_marks lesson [] = pure tt
check_marks lesson (m ∷ ms) = do
  eligible ← gets (student_ids_for lesson)
  throw_if (has_stranger eligible (m ∷ ms)) student_not_in_lesson
  throw_if (has_duplicates (m ∷ ms)) one_entry_per_student

-- `blankToNull` on a text that was sent
abbrev pub blank_to_null : Text → Option Text
blank_to_null s = or_null (trim s)

abbrev pub patch_text : Option Text → Option Text → Option Text
patch_text none old = old
patch_text (some s) old = blank_to_null s

-- `dto.status ?? statusFromRegister(marks)`
abbrev pub journal_status : WriteJournal → Option LessonStatus
journal_status dto =
    if is_some dto.status then dto.status else status_from_register (get_or dto.attendance [])

abbrev pub patch_lesson : WriteJournal → LessonRow → LessonRow
patch_lesson dto l = record l {
  topic = patch_text dto.topic l.topic;
  homework = patch_text dto.homework l.homework;
  status = get_or (journal_status dto) l.status;
}

-- The body of the transaction.
unfoldable pub store_journal : Key → WriteJournal → Action (Unit {0})
unfolding write_marks
store_journal lesson dto = do
  write_marks lesson (get_or dto.attendance [])
  write (λ db. record db { lessons = modify lesson (patch_lesson dto) db.lessons })

unfoldable pub write_journal : User → Key → WriteJournal → Action LessonRow
unfolding find_reachable student_ids_for check_marks store_journal
write_journal user lesson dto = do
  l ← find_reachable user lesson
  check_marks lesson (get_or dto.attendance [])
  transaction (store_journal lesson dto)
  pure (patch_lesson dto l)
