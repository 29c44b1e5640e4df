-- ===== src/Gradebook/Marks/Scale.antt =====
-- What is stored by the grade methods of src/gradebook/gradebook.service.ts.
use tutor_app_back.Access.{Reaches}
use tutor_app_back.Students
use tutor_app_back.Gradebook.Marks.{
  WriteGrade, assert_value_in_scale, data_from, find_writable, update,
}
use tutor_app_back.Prelude.{
  ℕ, ◌*◌, ◌≤◌, ◌≡◌, ap, ◌∙◌, ◌↔◌, ◌⊎◌, inl, inr, none, some, arith, ◌==◌, if◌then◌else◌, get_or,
}
use tutor_app_back.Prelude.Table.{Key, lookup, modify, lookup-modify}
use tutor_app_back.Model.{
  admin, classic, percentage, descriptive, SchoolRow, User, StudentRow, GradeRow, Db, Error, Result,
  ok, err, Action-cases,
}

-- The kind of a grade and its contents agree, and its value is on the scale.
abbrev pub IsInScale : ℕ → ℕ → GradeRow → Type 0
IsInScale unit scale g =
    (g.kind ≡ descriptive → g.value ≡ none)
    × (g.kind ≡ percentage → get_or g.value 0 ≤ 100 * unit)
    × (g.kind ≡ classic → get_or g.value 0 ≤ scale)

pub assert_value_in_scale-ok :
    (unit : ℕ) (user : User) (dto : WriteGrade) (db : Db) (g : GradeRow) (school : SchoolRow)
    → lookup user.school_id db.schools ≡ some school
    → assert_value_in_scale unit user dto db ≡ (ok tt, db)
    → IsInScale unit school.grade_scale_max (data_from dto g)
unfolding assert_value_in_scale
assert_value_in_scale-ok unit user dto db g school found h = ground arith

-- For a stored grade of a stored student, `findWritable` returns it, and writes nothing, exactly when the
-- caller reaches the student, and gave the grade or is an admin.
pub find_writable_iff :
    (user : User) (id : Key) (db : Db) (g : GradeRow) (s : StudentRow)
    → lookup id db.grades ≡ some g
    → lookup g.student_id db.students ≡ some s
    → (find_writable user id db ≡ (ok g, db))
      ↔ (Reaches user s.school_id s.tutor_id × ((g.author_id ≡ user.id) ⊎ (user.role ≡ admin)))
unfolding find_writable Students.find_one
find_writable_iff user id db g s stored known = rw stored (rw known (ground arith))

find_writable-ok :
    (user : User) (id : Key) (db d : Db) (g : GradeRow)
    → find_writable user id db ≡ (ok g, d)
    → (lookup id db.grades ≡ some g) × (d ≡ db)
unfolding find_writable Students.find_one
find_writable-ok user id db d g h = ground arith

find_writable-state :
    (user : User) (id : Key) (db d : Db) (e : Error)
    → find_writable user id db ≡ (err e, d)
    → d ≡ db
unfolding find_writable Students.find_one
find_writable-state user id db d e h = ground arith

pub assert_value_in_scale-state :
    (unit : ℕ) (user : User) (dto : WriteGrade) (db d : Db) (r : Result (Unit {0}))
    → assert_value_in_scale unit user dto db ≡ (r, d)
    → d ≡ db
unfolding assert_value_in_scale
assert_value_in_scale-state unit user dto db d r h = ground arith

update-not_writable :
    (unit : ℕ) (user : User) (id : Key) (dto : WriteGrade) (db d : Db) (e : Error)
    → find_writable user id db ≡ (err e, d)
    → update unit user id dto db ≡ (err e, db)
unfolding update
update-not_writable unit user id dto db d e h = ground (arith, find_writable-state user id db d e h)

update-off_scale :
    (unit : ℕ) (user : User) (id : Key) (dto : WriteGrade) (db c d : Db) (g : GradeRow) (e : Error)
    → find_writable user id db ≡ (ok g, c)
    → assert_value_in_scale unit user dto db ≡ (err e, d)
    → update unit user id dto db ≡ (err e, db)
unfolding update
update-off_scale unit user id dto db c d g e h off = ground (
  arith,
  find_writable-ok user id db c g h,
  assert_value_in_scale-state unit user dto db d (err e) off,
)

-- The stored rows after a correction.
update-ok :
    (unit : ℕ) (user : User) (id : Key) (dto : WriteGrade) (db : Db) (g : GradeRow)
    → find_writable user id db ≡ (ok g, db)
    → assert_value_in_scale unit user dto db ≡ (ok tt, db)
    → update unit user id dto db
      ≡ (ok (data_from dto g), record db { grades = modify id (data_from dto) db.grades })
unfolding update
update-ok unit user id dto db g writable in_scale = ground arith

-- When the caller's school is stored, a correction throws and writes nothing, or replaces the columns of a
-- stored grade, with a value on the scale of its new kind, and every other grade stays as it was.
pub update_outcome :
    (unit : ℕ) (user : User) (id : Key) (dto : WriteGrade) (db : Db) (school : SchoolRow)
    → lookup user.school_id db.schools ≡ some school
    → ((e : Error) × (update unit user id dto db ≡ (err e, db)))
      ⊎ ((old : GradeRow) × (d : Db) × (update unit user id dto db ≡ (ok (data_from dto old), d))
          × (lookup id db.grades ≡ some old)
          × IsInScale unit school.grade_scale_max (data_from dto old)
          × ((j : Key)
              → lookup j d.grades
                ≡ (if j == id then some (data_from dto old) else lookup j db.grades)))
update_outcome unit user id dto db school found = elim (Action-cases (find_writable user id) db) [
  | inl (e, d, far) ↦ inl (e, update-not_writable unit user id dto db d e far)
  | inr (old, d, near) ↦
      let (stored, here) = find_writable-ok user id db d old near in
      elim (Action-cases (assert_value_in_scale unit user dto) db) [
        | inl (e, d₁, off) ↦ inl (e, update-off_scale unit user id dto db d d₁ old e near off)
        | inr (_, d₁, on) ↦
            let on' : assert_value_in_scale unit user dto db ≡ (ok tt, db) =
              on
              ∙ ap (λ x. (ok tt, x)) (assert_value_in_scale-state unit user dto db d₁ (ok tt) on) in
            inr (
              old,
              _,
              update-ok unit user id dto db old (near ∙ ap (λ x. (ok old, x)) here) on',
              stored,
              assert_value_in_scale-ok unit user dto db old school found on',
              λ j. ground (arith, lookup-modify j id (data_from dto) db.grades),
            )
      ]
]
