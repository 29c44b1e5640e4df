-- ===== src/Tenancy/Booking.antt =====
-- The writes of src/lessons/lessons.service.ts keep the schools apart.
use tutor_app_back.Tenancy.{IsSeparate, subject_school}
use tutor_app_back.Tenancy.Rows.{in_school}
use tutor_app_back.Tenancy.Moves.{add_lesson-IsSeparate, change_lesson-IsSeparate}
use tutor_app_back.Tenancy.Removals.{elsewhere-IsSeparate}
use tutor_app_back.Tenancy.Resolving.{chain-keeps, read-keeps, resolve-state, resolve-inside}
use tutor_app_back.Tenancy.Rooms.{OnlyAccounts, meeting_for-OnlyAccounts}
use tutor_app_back.Access.{
  student-find_one_iff, student-find_one-state, group-find_one_iff, group-find_one-state,
  find_reachable-state,
}
use tutor_app_back.Subjects.{resolve}
use tutor_app_back.Students
use tutor_app_back.Groups
use tutor_app_back.Lessons
use tutor_app_back.Lessons.{
  Outside, CreateLesson, booked, book_for, insert_lesson, meeting_for, set_status, find_reachable,
  same_presence,
}
use tutor_app_back.Meetings.Providers.{Meeting}
use tutor_app_back.Prelude.{
  ◌≡◌, refl, inl, inr, Bool, true, false, Option, none, some, arith, Option-cases,
}
use tutor_app_back.Prelude.Table.{Key, modify}
use tutor_app_back.Model.{
  LessonStatus, User, LessonRow, Db, Error, one_student_or_group, Action, pure, ◌>>=◌, ◌>>◌,
  throw_if, write,
}

module _ (user : User) (dto : CreateLesson) (subject : Option Key) (meeting : Option Meeting)
    (db : Db) (c : IsSeparate db)
    (inside : in_school (subject_school db) user.school_id subject ≡ true) where
  abbrev row : LessonRow
  row = booked user dto subject meeting

  book_group-IsSeparate :
      (g : Key)
      → IsSeparate
          ((Groups.find_one user g >> insert_lesson (record row { group_id = some g })) db).1
  book_group-IsSeparate g =
      read-keeps IsSeparate (Groups.find_one user g)
        (λ _. insert_lesson (record row { group_id = some g })) db (group-find_one-state user g db)
        c
        (λ r h.
          let (found, (own, _)) = (group-find_one_iff user g db r).0 h in
          add_lesson-IsSeparate db c (record row { group_id = some g })
            (ground (arith, inside, found, own)))

  book_student-IsSeparate :
      (s : Key)
      → IsSeparate
          ((Students.find_one user s >> insert_lesson (record row { student_id = some s })) db).1
  book_student-IsSeparate s =
      read-keeps IsSeparate (Students.find_one user s)
        (λ _. insert_lesson (record row { student_id = some s })) db
        (student-find_one-state user s db) c
        (λ r h.
          let (found, (own, _)) = (student-find_one_iff user s db r).0 h in
          add_lesson-IsSeparate db c (record row { student_id = some s })
            (ground (arith, inside, found, own)))

  book_for-IsSeparate : IsSeparate (book_for user dto row db).1
  book_for-IsSeparate = elim (Option-cases (dto.group_id)) [
    | inr (g, for_group) ↦ rw for_group (book_group-IsSeparate g)
    | inl no_group ↦ elim (Option-cases (dto.student_id)) [
      | inr (s, for_student) ↦ rw (no_group, for_student) (book_student-IsSeparate s)
      | inl nobody ↦ rw (no_group, nobody) c
    ]
  ]

throw_if-state : (b : Bool) (e : Error) (db : Db) → (throw_if b e db).1 ≡ db
throw_if-state true e db = refl
throw_if-state false e db = refl

-- The accounts that a booking may renew are no part of the invariant.
accounts-IsSeparate : (db d : Db) → OnlyAccounts db d → IsSeparate db → IsSeparate d
accounts-IsSeparate db d (rows, e) c = rw e (
    elsewhere-IsSeparate db (record db { meeting_accounts = rows }) refl refl refl refl refl
      (omega arith) c)

module _ (user : User) (db : Db) (c : IsSeparate db) where
  pub create_lesson-IsSeparate :
      (o : Outside) (dto : CreateLesson) → IsSeparate (Lessons.create o user dto db).1
  unfolding Lessons.create
  create_lesson-IsSeparate o dto =
      let meet : Option Key → Action (Option Meeting) =
        λ subject. meeting_for o user subject dto.starts_at dto.duration_minutes in
      let book : Option Key → Option Meeting → Action LessonRow =
        λ subject meeting. book_for user dto (booked user dto subject meeting) in
      read-keeps IsSeparate
        (throw_if (same_presence dto.student_id dto.group_id) one_student_or_group)
        (λ _. resolve user dto.subject_id none >>= λ subject. meet subject >>= book subject) db
        (throw_if-state (same_presence dto.student_id dto.group_id) one_student_or_group db) c
        (λ _ _.
          read-keeps IsSeparate (resolve user dto.subject_id none)
            (λ subject. meet subject >>= book subject) db
            (resolve-state user dto.subject_id none db) c
            (λ subject h.
              let only =
                meeting_for-OnlyAccounts o user subject dto.starts_at dto.duration_minutes db in
              let after : IsSeparate (meet subject db).1 = accounts-IsSeparate db _ only c in
              chain-keeps IsSeparate (meet subject) (book subject) db after (λ meeting _.
                book_for-IsSeparate user dto subject meeting (meet subject db).1 after
                  (rw (only.1) (resolve-inside user dto.subject_id none subject db h)))))

  pub update_status-IsSeparate :
      (id : Key) (status : LessonStatus) → IsSeparate (Lessons.update_status user id status db).1
  unfolding Lessons.update_status
  update_status-IsSeparate id status =
      read-keeps IsSeparate (find_reachable user id)
        (λ l.
          write (λ e. record e { lessons = modify id (set_status status) e.lessons })
          >> pure (set_status status l))
        db (find_reachable-state user id db) c
        (λ l h. change_lesson-IsSeparate db c id (set_status status) (λ r. refl))
