-- ===== src/Model/Cascade.antt =====
-- The foreign keys of prisma/schema.prisma that a deletion runs through: a lesson takes its register,
-- its notes and its files with it and leaves its marks without a lesson; a student takes their lessons,
-- marks, notes, files, memberships and lines of the register; a group takes its lessons and
-- memberships.
use tutor_app_back.Model.Rows.{Db, LessonRow, GradeRow}
use tutor_app_back.Prelude.{Bool, false, not, Option, none, some, ◌==◌, if◌then◌else◌, filter}
use tutor_app_back.Prelude.Table.{Key, Table, lookup, erase, find_many, map_rows}

-- `optional === key` on a nullable column
abbrev pub is_key : Key → Option Key → Bool
is_key k none = false
is_key k (some j) = k == j

module _ (p : LessonRow → Bool) where
  -- The lesson of this id is among those deleted.
  abbrev pub is_deleted : Table LessonRow → Key → Bool
  is_deleted t k = elim (lookup k t) [ none ↦ false | some l ↦ p l ]

  abbrev pub is_deleted_ref : Table LessonRow → Option Key → Bool
  is_deleted_ref t none = false
  is_deleted_ref t (some k) = is_deleted t k

  -- `onDelete: SetNull` of a mark's lesson
  abbrev pub clear_lesson : Table LessonRow → GradeRow → GradeRow
  clear_lesson t g = record g {
    lesson_id = if is_deleted_ref t g.lesson_id then none else g.lesson_id;
  }

  unfoldable pub delete_lessons : Db → Db
  delete_lessons db = record db {
    lessons = find_many (λ l. not (p l)) db.lessons;
    attendances = filter (λ a. not (is_deleted db.lessons a.lesson_id)) db.attendances;
    notes = find_many (λ n. not (is_deleted_ref db.lessons n.lesson_id)) db.notes;
    files = find_many (λ f. not (is_deleted_ref db.lessons f.lesson_id)) db.files;
    grades = map_rows (clear_lesson db.lessons) db.grades;
  }

unfoldable pub delete_group : Key → Db → Db
unfolding delete_lessons
delete_group id db =
    let rest = delete_lessons (λ l. is_key id l.group_id) db in
    record rest {
      groups = erase id rest.groups;
      members = filter (λ m. not (m.group_id == id)) rest.members;
    }

unfoldable pub delete_student : Key → Db → Db
unfolding delete_lessons
delete_student id db =
    let rest = delete_lessons (λ l. is_key id l.student_id) db in
    record rest {
      students = erase id rest.students;
      members = filter (λ m. not (m.student_id == id)) rest.members;
      attendances = filter (λ a. not (a.student_id == id)) rest.attendances;
      notes = find_many (λ n. not (is_key id n.student_id)) rest.notes;
      grades = find_many (λ g. not (g.student_id == id)) rest.grades;
      files = find_many (λ f. not (is_key id f.student_id)) rest.files;
    }
