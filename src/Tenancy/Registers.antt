-- ===== src/Tenancy/Registers.antt =====
-- The journal of src/gradebook/gradebook.service.ts keeps the schools apart.
use tutor_app_back.Tenancy.{IsSeparate}
use tutor_app_back.Tenancy.Moves.{change_lesson-IsSeparate, change_student-IsSeparate}
use tutor_app_back.Tenancy.Removals.{elsewhere-IsSeparate}
use tutor_app_back.Tenancy.Resolving.{chain-keeps, read-keeps}
use tutor_app_back.Access.{find_reachable-state}
use tutor_app_back.Gradebook.Journal.Outcome.{check_marks-state}
use tutor_app_back.Gradebook.Journal.{
  WriteJournal, MarkAttendance, write_journal, store_journal, write_marks, write_mark, check_marks,
  settle, was_charged, charged, change_balance, add_balance, find_line, upsert_line, patch_lesson,
}
use tutor_app_back.Lessons.{find_reachable}
use tutor_app_back.Prelude.{
  refl, sym, ap, inl, inr, Bool, true, false, List, [], ◌∷◌, arith, Bool-cases, is_some, get_or,
}
use tutor_app_back.Prelude.Int.{ℤ, pos, negsuc}
use tutor_app_back.Prelude.Table.{Key, lookup, modify}
use tutor_app_back.Model.{
  User, LessonRow, Db, Action, pure, transaction, ◌>>=◌, ◌>>◌, write, Action-cases,
}

change_balance-IsSeparate :
    (student : Key) (change : ℤ) (db : Db)
    → IsSeparate db
    → IsSeparate (change_balance student change db).1
change_balance-IsSeparate student change db c =
    elim (Bool-cases (is_some (lookup student db.students))) [
      | inr missing ↦ rw missing c
      | inl there ↦ rw there (
          change_student-IsSeparate db c student (add_balance change) (λ r. refl)
            (λ r _ inside. inside))
    ]

settle-IsSeparate :
    (student : Key) (a b : Bool) (db : Db) → IsSeparate db → IsSeparate (settle student a b db).1
settle-IsSeparate student true true db c = c
settle-IsSeparate student false false db c = c
settle-IsSeparate student false true db c = change_balance-IsSeparate student (negsuc 0) db c
settle-IsSeparate student true false db c = change_balance-IsSeparate student (pos 1) db c

write_mark-IsSeparate :
    (lesson : Key) (m : MarkAttendance) (db : Db)
    → IsSeparate db
    → IsSeparate (write_mark lesson m db).1
unfolding write_mark
write_mark-IsSeparate lesson m db c =
    let put : Unit {0} → Action (Unit {0}) =
      λ _. write (λ e. record e { attendances = upsert_line lesson m e.attendances }) in
    let before =
      settle m.student_id (was_charged (find_line lesson m.student_id db.attendances))
        (charged m.status) in
    let settled =
      settle-IsSeparate m.student_id (was_charged (find_line lesson m.student_id db.attendances))
        (charged m.status) db c in
    chain-keeps IsSeparate before put db settled (λ _ _.
      elsewhere-IsSeparate (before db).1
        (record ((before db).1) { attendances = upsert_line lesson m (before db).1.attendances })
        refl refl refl refl refl (omega arith) settled)

write_marks-IsSeparate :
    (lesson : Key) (ms : List MarkAttendance) (db : Db)
    → IsSeparate db
    → IsSeparate (write_marks lesson ms db).1
unfolding write_marks
write_marks-IsSeparate lesson [] db c = c
write_marks-IsSeparate lesson (m ∷ ms) db c =
    chain-keeps IsSeparate (write_mark lesson m) (λ _. write_marks lesson ms) db
      (write_mark-IsSeparate lesson m db c)
      (λ _ _.
        write_marks-IsSeparate lesson ms (write_mark lesson m db).1
          (write_mark-IsSeparate lesson m db c))

store_journal-IsSeparate :
    (lesson : Key) (dto : WriteJournal) (db : Db)
    → IsSeparate db
    → IsSeparate (store_journal lesson dto db).1
unfolding store_journal
store_journal-IsSeparate lesson dto db c =
    let marked = write_marks-IsSeparate lesson (get_or dto.attendance []) db c in
    chain-keeps IsSeparate (write_marks lesson (get_or dto.attendance []))
      (λ _. write (λ e. record e { lessons = modify lesson (patch_lesson dto) e.lessons })) db
      marked
      (λ _ _.
        change_lesson-IsSeparate (write_marks lesson (get_or dto.attendance []) db).1 marked lesson
          (patch_lesson dto) (λ r. refl))

transaction-keeps :
    {A : Type 0} (P : Db → Type 0) (m : Action A) (db : Db)
    → P db
    → P (m db).1
    → P (transaction m db).1
transaction-keeps P m db before after = elim (Action-cases m db) [
  | inl (e, d, h) ↦ rw (h, transaction) before
  | inr (a, d, h) ↦ rw (h, h, transaction) (rw (sym (ap (λ p. p.1) h)) after)
]

pub write_journal-IsSeparate :
    (user : User) (lesson : Key) (dto : WriteJournal) (db : Db)
    → IsSeparate db
    → IsSeparate (write_journal user lesson dto db).1
unfolding write_journal
write_journal-IsSeparate user lesson dto db c =
    let marks = get_or dto.attendance [] in
    let store : Action (Unit {0}) = transaction (store_journal lesson dto) in
    let last : LessonRow → Unit {0} → Action LessonRow = λ l _. pure (patch_lesson dto l) in
    read-keeps IsSeparate (find_reachable user lesson)
      (λ l. check_marks lesson marks >> (store >>= last l)) db (find_reachable-state user lesson db)
      c
      (λ l _.
        read-keeps IsSeparate (check_marks lesson marks) (λ _. store >>= last l) db
          (check_marks-state lesson marks db) c
          (λ _ _.
            let stored =
              transaction-keeps IsSeparate (store_journal lesson dto) db c
                (store_journal-IsSeparate lesson dto db c) in
            chain-keeps IsSeparate store (last l) db stored (λ _ _. stored)))
