-- ===== src/Gradebook/Marks/Filing.antt =====
-- `addForLesson` of src/gradebook/gradebook.service.ts: whose mark it is, and what is stored.
use tutor_app_back.Access.{find_reachable-state, find_reachable_iff}
use tutor_app_back.Lessons.{find_reachable, student_ids_for}
use tutor_app_back.Gradebook.Marks.{
  WriteGrade, assert_value_in_scale, data_from, resolve_marked, add_for_lesson, blank_grade,
}
use tutor_app_back.Gradebook.Marks.Scale.{
  IsInScale, assert_value_in_scale-ok, assert_value_in_scale-state,
}
use tutor_app_back.Prelude.{
  ℕ, ◌+◌, ◌≡◌, ap, ◌∙◌, ◌⊎◌, inl, inr, true, Option, some, arith, ◌==◌, if◌then◌else◌, contains,
}
use tutor_app_back.Prelude.Int.{ℤ}
use tutor_app_back.Prelude.Table.{Key, lookup, append, lookup-append, KeysBelow, lookup_fresh}
use tutor_app_back.Model.{
  SchoolRow, User, LessonRow, GradeRow, Db, Error, Result, ok, err, Action-cases, returned_here,
}

resolve_marked-ok :
    (lesson : Key) (l : LessonRow) (named : Option Key) (db d : Db) (student : Key)
    → lookup lesson db.lessons ≡ some l
    → resolve_marked lesson l named db ≡ (ok student, d)
    → contains student (student_ids_for lesson db) ≡ true
unfolding resolve_marked
resolve_marked-ok lesson l named db d student found h = ground arith

resolve_marked-state :
    (lesson : Key) (l : LessonRow) (named : Option Key) (db d : Db) (r : Result Key)
    → resolve_marked lesson l named db ≡ (r, d)
    → d ≡ db
unfolding resolve_marked
resolve_marked-state lesson l named db d r h = ground arith

module _ (unit : ℕ) (now : ℤ) (user : User) (lesson : Key) (dto : WriteGrade) (db : Db) where
  -- The row of a mark for this student.
  abbrev filed : Key → GradeRow
  filed student = data_from dto (blank_grade now student (some lesson) user.id)

  filing-unreachable :
      (e : Error) (d : Db)
      → find_reachable user lesson db ≡ (err e, d)
      → add_for_lesson unit now user lesson dto db ≡ (err e, db)
  unfolding add_for_lesson
  filing-unreachable e d failed = ground (arith, find_reachable-state user lesson db)

  module _ (l : LessonRow) (found : find_reachable user lesson db ≡ (ok l, db)) where
    filing-of_nobody :
        (e : Error) (d : Db)
        → resolve_marked lesson l dto.student_id db ≡ (err e, d)
        → add_for_lesson unit now user lesson dto db ≡ (err e, db)
    unfolding add_for_lesson
    filing-of_nobody e d failed =
        ground (arith, resolve_marked-state lesson l dto.student_id db d (err e) failed)

    module _ (student : Key)
        (known : resolve_marked lesson l dto.student_id db ≡ (ok student, db)) where
      filing-off_scale :
          (e : Error) (d : Db)
          → assert_value_in_scale unit user dto db ≡ (err e, d)
          → add_for_lesson unit now user lesson dto db ≡ (err e, db)
      unfolding add_for_lesson
      filing-off_scale e d failed =
          ground (arith, assert_value_in_scale-state unit user dto db d (err e) failed)

      filing-stored :
          assert_value_in_scale unit user dto db ≡ (ok tt, db)
          → add_for_lesson unit now user lesson dto db ≡ (
            ok db.next_id,
            record db {
              grades = append db.next_id (filed student) db.grades;
              next_id = db.next_id + 1;
            },
          )
      unfolding add_for_lesson
      filing-stored fits = ground arith

  -- When the caller's school is stored and new ids are fresh, `addForLesson` throws and writes nothing, or
  -- stores under a new id a mark by the caller for somebody who is taught in the lesson, with a value on
  -- the scale of its kind, and every mark that was there stays as it was.
  pub add_for_lesson_outcome :
      (school : SchoolRow)
      → lookup user.school_id db.schools ≡ some school
      → KeysBelow db.next_id db.grades
      → ((e : Error) × (add_for_lesson unit now user lesson dto db ≡ (err e, db)))
        ⊎ ((student : Key) × (d : Db) × (add_for_lesson unit now user lesson dto db
              ≡ (ok db.next_id, d))
            × (contains student (student_ids_for lesson db) ≡ true)
            × IsInScale unit school.grade_scale_max (filed student)
            × ((j : Key)
                → lookup j d.grades
                  ≡ (if j == db.next_id then some (filed student) else lookup j db.grades)))
  add_for_lesson_outcome school own fresh = elim (Action-cases (find_reachable user lesson) db) [
    | inl (e, d, far) ↦ inl (e, filing-unreachable e d far)
    | inr (l, d, near) ↦
        let found : find_reachable user lesson db ≡ (ok l, db) =
          returned_here (find_reachable-state user lesson db) near in
        let (stored, _) = (find_reachable_iff user lesson db l).0 found in
        elim (Action-cases (resolve_marked lesson l dto.student_id) db) [
          | inl (e, d₁, nobody) ↦ inl (e, filing-of_nobody l found e d₁ nobody)
          | inr (student, d₁, who) ↦
              let known : resolve_marked lesson l dto.student_id db ≡ (ok student, db) =
                who
                ∙ ap (λ x. (ok student, x))
                    (resolve_marked-state lesson l dto.student_id db d₁ (ok student) who) in
              elim (Action-cases (assert_value_in_scale unit user dto) db) [
                | inl (e, d₂, off) ↦ inl (e, filing-off_scale l found student known e d₂ off)
                | inr (_, d₂, on) ↦
                    let fits : assert_value_in_scale unit user dto db ≡ (ok tt, db) =
                      on
                      ∙ ap (λ x. (ok tt, x))
                          (assert_value_in_scale-state unit user dto db d₂ (ok tt) on) in
                    inr (
                      student,
                      _,
                      filing-stored l found student known fits,
                      resolve_marked-ok lesson l dto.student_id db db student stored known,
                      assert_value_in_scale-ok unit user dto db
                          (blank_grade now student (some lesson) user.id) school own fits,
                      λ j. ground (
                        arith,
                        lookup-append j db.next_id (filed student) db.grades
                            (lookup_fresh db.next_id db.grades fresh),
                      ),
                    )
              ]
        ]
  ]
