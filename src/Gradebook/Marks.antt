-- ===== src/Gradebook/Marks.antt =====
-- The grades of src/gradebook/gradebook.service.ts: who may give, correct and remove a mark, and the
-- columns that a mark becomes.
pub mod Scale
pub mod Filing
use tutor_app_back.Students
use tutor_app_back.Gradebook.Journal.{blank_to_null}
use tutor_app_back.Gradebook.Progress.{kind_eq}
use tutor_app_back.Lessons.{find_reachable, student_ids_for}
use tutor_app_back.Prelude.{
  ℕ, ◌+◌, ◌*◌, not, ◌&&◌, Option, none, some, ltb, ◌==◌, if◌then◌else◌, get_or, contains,
}
use tutor_app_back.Prelude.Int.{ℤ, pos}
use tutor_app_back.Prelude.Table.{Key, Table, lookup, modify, erase, append, find_many}
use tutor_app_back.Model.{
  is_admin, GradeKind, classic, percentage, descriptive, User, LessonRow, GradeRow,
  student_not_in_lesson, must_name_student, grade_not_found, only_author_can_change,
  percentage_too_large, grades_out_of, record_missing, ok, Action, pure, throw, gets, or_throw,
  ◌>>=◌, ◌>>◌, throw_if, write,
}
use tutor_app_back.Model.Text.{Text}

-- In the units of `Progress`, `unit` of them to one.
abbrev pub max_percentage : ℕ
max_percentage = 100

pub record WriteGrade : Type 0 where
  pub kind : GradeKind
  pub value : Option ℕ
  pub category : Option Text
  pub comment : Option Text
  pub weight : Option ℤ
  pub student_id : Option Key

-- `assertValueInScale`, with the units of one in front.
unfoldable pub assert_value_in_scale : ℕ → User → WriteGrade → Action (Unit {0})
assert_value_in_scale unit user dto db = elim (dto.value) [
  | none ↦ (ok tt, db)
  | some v ↦ elim (dto.kind) [
    | descriptive ↦ (ok tt, db)
    | percentage ↦ throw_if (ltb (max_percentage * unit) v) percentage_too_large db
    | classic ↦ elim (lookup user.school_id db.schools) [
      | none ↦ throw record_missing db
      | some school ↦
          throw_if (ltb school.grade_scale_max v) (grades_out_of school.grade_scale_max) db
    ]
  ]
]

abbrev pub text_or_null : Option Text → Option Text
text_or_null none = none
text_or_null (some s) = blank_to_null s

-- `dataFrom`, over the row that is created or corrected.
abbrev pub data_from : WriteGrade → GradeRow → GradeRow
data_from dto g = record g {
  kind = dto.kind;
  value = if kind_eq dto.kind descriptive then none else dto.value;
  category = text_or_null dto.category;
  comment = text_or_null dto.comment;
  weight = get_or dto.weight (pos 1);
}

-- `resolveMarked`: the student of a one-to-one lesson, or the named member of the group.
unfoldable pub resolve_marked : Key → LessonRow → Option Key → Action Key
unfolding student_ids_for
resolve_marked lesson l named db = elim (l.student_id) [
  | some s ↦ elim named [
    | none ↦ (ok s, db)
    | some n ↦ if n == s then (ok s, db) else throw student_not_in_lesson db
  ]
  | none ↦ elim named [
    | none ↦ throw must_name_student db
    | some n ↦
        if contains n (student_ids_for lesson db)
        then (ok n, db)
        else throw student_not_in_lesson db
  ]
]

-- The columns of a new mark that `dataFrom` leaves alone.
abbrev pub blank_grade : ℤ → Key → Option Key → Key → GradeRow
blank_grade now student lesson author = record {
  kind = classic;
  value = none;
  category = none;
  comment = none;
  weight = pos 1;
  student_id = student;
  lesson_id = lesson;
  author_id = author;
  created_at = now;
}

abbrev pub insert_grade : GradeRow → Action Key
insert_grade g db =
    (ok db.next_id, record db { grades = append db.next_id g db.grades; next_id = db.next_id + 1 })

-- `findWritable`: through the student first, and then the author or an admin.
unfoldable pub find_writable : User → Key → Action GradeRow
unfolding Students.find_one
find_writable user id = do
  found ← gets (λ db. lookup id db.grades)
  g ← or_throw found grade_not_found
  Students.find_one user g.student_id
  throw_if (not (g.author_id == user.id) && not (is_admin user.role)) only_author_can_change
  pure g

-- The marks of a student, before their ordering.
unfoldable pub list_for_student : User → Key → Action (Table GradeRow)
unfolding Students.find_one
list_for_student user student = do
  Students.find_one user student
  gets (λ db. find_many (λ g. g.student_id == student) db.grades)

module _ (unit : ℕ) (now : ℤ) where
  unfoldable pub add_for_student : User → Key → WriteGrade → Action Key
  unfolding Students.find_one assert_value_in_scale
  add_for_student user student dto = do
    Students.find_one user student
    assert_value_in_scale unit user dto
    insert_grade (data_from dto (blank_grade now student none user.id))

  unfoldable pub add_for_lesson : User → Key → WriteGrade → Action Key
  unfolding find_reachable resolve_marked assert_value_in_scale
  add_for_lesson user lesson dto = do
    l ← find_reachable user lesson
    student ← resolve_marked lesson l dto.student_id
    assert_value_in_scale unit user dto
    insert_grade (data_from dto (blank_grade now student (some lesson) user.id))

module _ (unit : ℕ) where
  unfoldable pub update : User → Key → WriteGrade → Action GradeRow
  unfolding find_writable assert_value_in_scale
  update user id dto = do
    g ← find_writable user id
    assert_value_in_scale unit user dto
    write (λ db. record db { grades = modify id (data_from dto) db.grades })
    pure (data_from dto g)

unfoldable pub remove : User → Key → Action (Unit {0})
unfolding find_writable
remove user id = do find_writable user id; write (λ db. record db { grades = erase id db.grades })
