-- ===== src/Tenancy/Calls.antt =====
-- Every method of src/subjects/subjects.service.ts and src/students/students.service.ts that
-- writes keeps the schools apart.
use tutor_app_back.Tenancy.{IsSeparate}
use tutor_app_back.Tenancy.Moves.{add_student-IsSeparate, change_student-IsSeparate}
use tutor_app_back.Tenancy.Writes.{add_subject-IsSeparate, change_subject-IsSeparate}
use tutor_app_back.Tenancy.Removals.{delete_student-IsSeparate}
use tutor_app_back.Tenancy.Resolving.{
  read-keeps, resolve-state, resolve-inside, student_patch-state, student_patch-inside,
}
use tutor_app_back.Access.{student-find_one_iff, student-find_one-state}
use tutor_app_back.Subjects
use tutor_app_back.Subjects.{resolve, find_by_name, is_taken, set_hidden}
use tutor_app_back.Students
use tutor_app_back.Students.{CreateStudent, UpdateStudent, new_student, patch_student}
use tutor_app_back.Prelude.{
  ◌+◌, ◌≡◌, refl, sym, ◌⊎◌, inl, inr, Bool, Option, none, some, arith, Bool-cases, Option-cases,
}
use tutor_app_back.Prelude.Int.{ℤ}
use tutor_app_back.Prelude.Table.{Key, modify, append}
use tutor_app_back.Model.{User, StudentRow, Db, Action, pure, ◌>>=◌, ◌>>◌, write, delete_student}
use tutor_app_back.Model.Text.{Text, trim}

module _ (same_name : Text → Text → Bool) (user : User) (typed : Text) (db : Db)
    (c : IsSeparate db) where
  pub create_subject-IsSeparate : IsSeparate (Subjects.create same_name user typed db).1
  unfolding Subjects.create
  create_subject-IsSeparate =
      elim (Option-cases (find_by_name same_name user.school_id (trim typed) db.subjects)) [
        | inr ((k, s), clash) ↦ rw (clash, Subjects.create) c
        | inl free ↦
            elim (Bool-cases (is_taken user.school_id (trim typed) db.next_id db.subjects)) [
              | inl taken ↦ rw (free, taken, Subjects.create) c
              | inr fresh ↦ rw (free, fresh, Subjects.create) (add_subject-IsSeparate db c _)
            ]
      ]

  rename_outcome :
      (id : Key)
      → ((Subjects.rename same_name user id typed db).1 ≡ db)
        ⊎ ((Subjects.rename same_name user id typed db).1
            ≡ record db { subjects = modify id (λ r. record r { name = trim typed }) db.subjects })
  unfolding Subjects.rename Subjects.find_one
  rename_outcome id = ground arith

  pub rename_subject-IsSeparate :
      (id : Key) → IsSeparate (Subjects.rename same_name user id typed db).1
  rename_subject-IsSeparate id = elim (rename_outcome id) [
    | inl kept ↦ rw kept c
    | inr renamed ↦
        rw renamed
          (change_subject-IsSeparate db c id (λ r. record r { name = trim typed }) (λ r. refl))
  ]

module _ (user : User) (db : Db) (c : IsSeparate db) where
  hide_outcome :
      (now : ℤ) (id : Key)
      → ((Subjects.hide now user id db).1 ≡ db)
        ⊎ ((Subjects.hide now user id db).1 ≡ set_hidden id (some now) db)
  unfolding Subjects.hide Subjects.usage Subjects.find_one
  hide_outcome now id = ground arith

  pub hide-IsSeparate : (now : ℤ) (id : Key) → IsSeparate (Subjects.hide now user id db).1
  hide-IsSeparate now id = elim (hide_outcome now id) [
    | inl kept ↦ rw kept c
    | inr hidden ↦
        rw hidden
          (change_subject-IsSeparate db c id (λ r. record r { hidden_at = some now }) (λ r. refl))
  ]

  restore_outcome :
      (id : Key)
      → ((Subjects.restore user id db).1 ≡ db)
        ⊎ ((Subjects.restore user id db).1 ≡ set_hidden id none db)
  unfolding Subjects.restore Subjects.find_one
  restore_outcome id = ground arith

  pub restore-IsSeparate : (id : Key) → IsSeparate (Subjects.restore user id db).1
  restore-IsSeparate id = elim (restore_outcome id) [
    | inl kept ↦ rw kept c
    | inr shown ↦
        rw shown
          (change_subject-IsSeparate db c id (λ r. record r { hidden_at = none }) (λ r. refl))
  ]

  pub create_student-IsSeparate : (dto : CreateStudent) → IsSeparate (Students.create user dto db).1
  unfolding Students.create
  create_student-IsSeparate dto =
      read-keeps IsSeparate (resolve user dto.subject_id none)
        (λ subject.
          write (λ e. record e {
            students = append e.next_id (new_student user dto subject) e.students;
            next_id = e.next_id + 1;
          })
          >> pure (new_student user dto subject))
        db (resolve-state user dto.subject_id none db) c
        (λ subject h.
          add_student-IsSeparate db c (new_student user dto subject)
            (resolve-inside user dto.subject_id none subject db h))

  pub update_student-IsSeparate :
      (id : Key) (dto : UpdateStudent) → IsSeparate (Students.update user id dto db).1
  unfolding Students.update
  update_student-IsSeparate id dto =
      let store : StudentRow → Option Key → Action StudentRow = λ s subject.
        write (λ e. record e { students = modify id (patch_student dto subject) e.students })
        >> pure (patch_student dto subject s) in
      read-keeps IsSeparate (Students.find_one user id)
        (λ s. Students.resolve_patch user dto.subject_id s.subject_id >>= store s) db
        (student-find_one-state user id db) c
        (λ s h.
          let (found, (own, _)) = (student-find_one_iff user id db s).0 h in
          read-keeps IsSeparate (Students.resolve_patch user dto.subject_id s.subject_id) (store s)
            db (student_patch-state user dto.subject_id s.subject_id db) c
            (λ subject h'.
              change_student-IsSeparate db c id (patch_student dto subject) (λ r. refl)
                (λ r there inside.
                  let at : r.school_id ≡ user.school_id = ground (arith, there, found, own) in
                  let held : r.subject_id ≡ s.subject_id = ground (arith, there, found) in
                  rw at (
                    student_patch-inside user dto.subject_id s.subject_id subject db
                      (rw (sym held) (rw (sym at) inside)) h'))))

  pub remove_student-IsSeparate : (id : Key) → IsSeparate (Students.remove user id db).1
  unfolding Students.remove
  remove_student-IsSeparate id =
      read-keeps IsSeparate (Students.find_one user id) (λ _. write (delete_student id)) db
        (student-find_one-state user id db) c (λ s h. delete_student-IsSeparate id db c)
