-- ===== src/Access.antt =====
-- Who may touch which row: `findOne` of src/students/students.service.ts and
-- src/groups/groups.service.ts, `findReachable` of src/lessons/lessons.service.ts.
use tutor_app_back.Subjects
use tutor_app_back.Students
use tutor_app_back.Groups
use tutor_app_back.Lessons
use tutor_app_back.Students.{is_visible}
use tutor_app_back.Prelude.{◌≡◌, refl, ◌↔◌, ◌⊎◌, Option, none, some, arith, ◌==◌, if◌then◌else◌}
use tutor_app_back.Prelude.Table.{Key, Table, lookup, IsKeyed, lookup-find_many}
use tutor_app_back.Model.{
  admin, User, StudentRow, GroupRow, LessonRow, Db, student_not_found, not_your_student,
  lesson_not_found, group_not_found, ok, err,
}

-- A tutor reaches their own rows and an admin the school's; nobody reaches another school's.
abbrev pub Reaches : User → Key → Key → Type 0
Reaches user school owner = (school ≡ user.school_id) × ((user.role ≡ admin) ⊎ (owner ≡ user.id))

module _ (user : User) (id : Key) (db : Db) where
  -- `StudentsService.findOne` returns a student exactly when the row is stored and the caller reaches
  -- it, and never writes.
  pub student-find_one_iff :
      (s : StudentRow)
      → (Students.find_one user id db ≡ (ok s, db))
        ↔ ((lookup id db.students ≡ some s) × Reaches user s.school_id s.tutor_id)
  unfolding Students.find_one
  student-find_one_iff s = ground arith

  -- `GroupsService.findOne` returns a group exactly when the row is stored and the caller reaches it,
  -- and never writes.
  pub group-find_one_iff :
      (g : GroupRow)
      → (Groups.find_one user id db ≡ (ok g, db))
        ↔ ((lookup id db.groups ≡ some g) × Reaches user g.school_id g.tutor_id)
  unfolding Groups.find_one
  group-find_one_iff g = ground arith

  -- `LessonsService.findReachable` returns a lesson exactly when the row is stored and the caller
  -- reaches it, and never writes.
  pub find_reachable_iff :
      (l : LessonRow)
      → (Lessons.find_reachable user id db ≡ (ok l, db))
        ↔ ((lookup id db.lessons ≡ some l) × Reaches user l.school_id l.tutor_id)
  unfolding Lessons.find_reachable
  find_reachable_iff l = ground arith

  -- When the caller does not reach the row, groups and lessons answer as for an id that is not there,
  -- and students do so for a row of another school; a colleague's student alone is refused by name.
  pub refusals :
      ((g : GroupRow)
        → lookup id db.groups ≡ some g
        → ¬ (Reaches user g.school_id g.tutor_id)
        → Groups.find_one user id db ≡ (err group_not_found, db))
      × ((l : LessonRow)
          → lookup id db.lessons ≡ some l
          → ¬ (Reaches user l.school_id l.tutor_id)
          → Lessons.find_reachable user id db ≡ (err lesson_not_found, db))
      × ((s : StudentRow)
          → lookup id db.students ≡ some s
          → ¬ (Reaches user s.school_id s.tutor_id)
          → Students.find_one user id db ≡ (
            if s.school_id == user.school_id then err not_your_student else err student_not_found,
            db,
          ))
  unfolding Students.find_one Groups.find_one Lessons.find_reachable
  refusals = (λ g found far. ground arith, λ l found far. ground arith, λ s found far. ground arith)

-- The four lookups read and never write.
module _ (user : User) (id : Key) (db : Db) where
  pub student-find_one-state : (Students.find_one user id db).1 ≡ db
  unfolding Students.find_one
  student-find_one-state = ground arith

  pub group-find_one-state : (Groups.find_one user id db).1 ≡ db
  unfolding Groups.find_one
  group-find_one-state = ground arith

  pub find_reachable-state : (Lessons.find_reachable user id db).1 ≡ db
  unfolding Lessons.find_reachable
  find_reachable-state = ground arith

  pub subject-find_one-state : (Subjects.find_one user id db).1 ≡ db
  unfolding Subjects.find_one
  subject-find_one-state = ground arith

pub resolve-state :
    (user : User) (asked current : Option Key) (db : Db)
    → (Subjects.resolve user asked current db).1 ≡ db
unfolding Subjects.resolve
resolve-state user none current db = refl
resolve-state user (some id) current db = ground arith

-- The roster is the rows that the caller reaches one by one: `findVisible` lists a student under an id
-- exactly when `findOne` returns that student for it.
pub visible_iff_reachable :
    (user : User) (id : Key) (db : Db) (s : StudentRow) (t : Table StudentRow)
    → IsKeyed db.students
    → Students.find_visible user db ≡ (ok t, db)
    → (lookup id t ≡ some s) ↔ (Students.find_one user id db ≡ (ok s, db))
unfolding Students.find_visible Students.find_one
visible_iff_reachable user id db s t keyed e = ground (
  arith,
  lookup-find_many (λ (r : StudentRow). is_visible user r.school_id r.tutor_id) id db.students s
      keyed,
)
