-- ===== src/Students.antt =====
-- src/students/students.service.ts: the students of a school, and who may touch them.
use tutor_app_back.Subjects.{resolve}
use tutor_app_back.Prelude.{◌+◌, Bool, not, ◌&&◌, Option, none, some, ◌==◌, if◌then◌else◌, get_or}
use tutor_app_back.Prelude.Int.{ℤ, pos}
use tutor_app_back.Prelude.Table.{Key, Table, lookup, modify, append, find_many}
use tutor_app_back.Model.{
  is_admin, User, StudentRow, student_not_found, not_your_student, Action, pure, throw, gets, ◌>>=◌,
  ◌>>◌, write, delete_student,
}
use tutor_app_back.Model.Text.{Text, trim}

-- `role === 'ADMIN' ? {schoolId} : {schoolId, tutorId}`, which students and groups share
abbrev pub is_visible : User → Key → Key → Bool
is_visible user school owner =
    if is_admin user.role
    then school == user.school_id
    else (school == user.school_id && owner == user.id)

unfoldable pub find_visible : User → Action (Table StudentRow)
find_visible user = gets (λ db. find_many (λ s. is_visible user s.school_id s.tutor_id) db.students)

unfoldable pub find_one : User → Key → Action StudentRow
find_one user id db = elim (lookup id db.students) [
  | none ↦ throw student_not_found db
  | some s ↦
      if not (s.school_id == user.school_id)
      then throw student_not_found db
      else (if not (is_admin user.role) && not (s.tutor_id == user.id)
          then throw not_your_student db
          else pure s db)
]

-- An absent name or balance is left alone; an absent subject too, while `null` clears it.
pub record UpdateStudent : Type 0 where
  pub name : Option Text
  pub subject_id : Option (Option Key)
  pub paid_lessons_left : Option ℤ

-- `dto.name?.trim()`
abbrev pub trimmed : Option Text → Option Text
trimmed none = none
trimmed (some s) = some (trim s)

-- The three cases of a subject in a patch: absent, cleared, and an id to be resolved.
unfoldable pub resolve_patch : User → Option (Option Key) → Option Key → Action (Option Key)
unfolding resolve
resolve_patch user none current = pure current
resolve_patch user (some asked) current = resolve user asked current

abbrev pub patch_student : UpdateStudent → Option Key → StudentRow → StudentRow
patch_student dto subject s = record s {
  name = get_or (trimmed dto.name) s.name;
  subject_id = subject;
  paid_lessons_left = get_or dto.paid_lessons_left s.paid_lessons_left;
}

unfoldable pub update : User → Key → UpdateStudent → Action StudentRow
unfolding find_one resolve_patch
update user id dto = do
  student ← find_one user id
  subject ← resolve_patch user dto.subject_id student.subject_id
  write (λ db. record db { students = modify id (patch_student dto subject) db.students })
  pure (patch_student dto subject student)

pub record CreateStudent : Type 0 where
  pub name : Text
  pub subject_id : Option Key
  pub paid_lessons_left : Option ℤ

abbrev pub new_student : User → CreateStudent → Option Key → StudentRow
new_student user dto subject = record {
  name = trim dto.name;
  paid_lessons_left = get_or dto.paid_lessons_left (pos 0);
  school_id = user.school_id;
  tutor_id = user.id;
  subject_id = subject;
}

unfoldable pub create : User → CreateStudent → Action StudentRow
unfolding resolve
create user dto = do
  subject ← resolve user dto.subject_id none
  let s = new_student user dto subject
  write (λ db. record db { students = append db.next_id s db.students; next_id = db.next_id + 1 })
  pure s

unfoldable pub remove : User → Key → Action (Unit {0})
unfolding find_one
remove user id = do find_one user id; write (delete_student id)
