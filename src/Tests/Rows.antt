-- ===== src/Tests/Rows.antt =====
-- Who reaches what, evaluated on the small school.
use tutor_app_back.Students
use tutor_app_back.Groups
use tutor_app_back.Lessons
use tutor_app_back.Access.{Reaches, find_reachable_iff, refusals, visible_iff_reachable}
use tutor_app_back.Tests.{teacher, head, colleague, north, lesson_row, pupil}
use tutor_app_back.Prelude.{◌≡◌, refl, ◌↔◌, none, some, ◌==◌, if◌then◌else◌}
use tutor_app_back.Prelude.Int.{pos}
use tutor_app_back.Prelude.Table.{lookup}
use tutor_app_back.Model.{
  StudentRow, GroupRow, LessonRow, student_not_found, not_your_student, lesson_not_found,
  group_not_found, ok, err,
}

find_reachable_iff_example :
    (Lessons.find_reachable head 40 north ≡ (ok (lesson_row none (some 30)), north))
    ↔ ((lookup 40 north.lessons ≡ some (lesson_row none (some 30))) × Reaches head 1 10)
find_reachable_iff_example = find_reachable_iff head 40 north (lesson_row none (some 30))

refusals_example :
    ((g : GroupRow)
      → lookup 20 north.groups ≡ some g
      → ¬ (Reaches colleague g.school_id g.tutor_id)
      → Groups.find_one colleague 20 north ≡ (err group_not_found, north))
    × ((l : LessonRow)
        → lookup 20 north.lessons ≡ some l
        → ¬ (Reaches colleague l.school_id l.tutor_id)
        → Lessons.find_reachable colleague 20 north ≡ (err lesson_not_found, north))
    × ((s : StudentRow)
        → lookup 20 north.students ≡ some s
        → ¬ (Reaches colleague s.school_id s.tutor_id)
        → Students.find_one colleague 20 north
          ≡ (if s.school_id == 1 then err not_your_student else err student_not_found, north))
refusals_example = refusals colleague 20 north

roster : Students.find_visible teacher north ≡ (ok north.students, north)
unfolding Students.find_visible
roster = refl

visible_iff_reachable_example :
    (lookup 21 north.students ≡ some (pupil (pos 0)))
    ↔ (Students.find_one teacher 21 north ≡ (ok (pupil (pos 0)), north))
visible_iff_reachable_example =
    visible_iff_reachable teacher 21 north (pupil (pos 0)) north.students (refl, (refl, tt)) roster
