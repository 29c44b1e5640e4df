-- ===== src/Gradebook/Standing.antt =====
-- The readings of src/gradebook/gradebook.service.ts: the register and the marks of a lesson, and how a
-- student is doing.
use tutor_app_back.Lessons.{find_reachable, concerns}
use tutor_app_back.Gradebook.Progress.{GradeLike, Doubles, ProgressSummary, summarise_progress}
use tutor_app_back.Students
use tutor_app_back.Prelude.{List, [], ◌∷◌, map, ◌==◌, filter}
use tutor_app_back.Prelude.Table.{Key, Table, find_many}
use tutor_app_back.Model.{
  LessonStatus, AttendanceStatus, User, LessonRow, AttendanceRow, GradeRow, Action, gets, ◌>>◌,
  is_key,
}

-- The lines of the register, before their ordering by name.
unfoldable pub register_for : User → Key → Action (List AttendanceRow)
unfolding find_reachable
register_for user lesson = do
  find_reachable user lesson
  gets (λ db. filter (λ (a : AttendanceRow). a.lesson_id == lesson) db.attendances)

-- The marks of a lesson, before their ordering.
unfoldable pub list_for_lesson : User → Key → Action (Table GradeRow)
unfolding find_reachable
list_for_lesson user lesson = do
  find_reachable user lesson
  gets (λ db. find_many (λ g. is_key lesson g.lesson_id) db.grades)

abbrev pub lesson_statuses : Table LessonRow → List LessonStatus
lesson_statuses [] = []
lesson_statuses ((k, l) ∷ t) = l.status ∷ lesson_statuses t

abbrev pub grade_like : GradeRow → GradeLike
grade_like g = record { kind = g.kind; value = g.value; weight = g.weight }

abbrev pub grade_likes : Table GradeRow → List GradeLike
grade_likes [] = []
grade_likes ((k, g) ∷ t) = grade_like g ∷ grade_likes t

abbrev pub marks_of : Key → List AttendanceRow → List AttendanceStatus
marks_of student rows =
    map (λ (a : AttendanceRow). a.status)
      (filter (λ (a : AttendanceRow). a.student_id == student) rows)

-- `progressForStudent`: the lessons alone and in groups, the marks, and the student's own lines.
unfoldable pub progress_for_student :
    {Number : Type 0} → Doubles Number → User → Key → Action (ProgressSummary Number)
unfolding Students.find_one summarise_progress
progress_for_student n user student = do
  Students.find_one user student
  gets (λ db.
      summarise_progress n (lesson_statuses (find_many (concerns student db.members) db.lessons))
        (grade_likes (find_many (λ g. g.student_id == student) db.grades))
        (marks_of student db.attendances))
