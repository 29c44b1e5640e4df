-- ===== src/Gradebook/Journal/Repeat.antt =====
-- Sending a journal a second time, and what the status of a lesson follows.
use mathlib.Core.Path.{subst}
use tutor_app_back.Access.{find_reachable_iff}
use tutor_app_back.Lessons.{find_reachable, student_ids_for}
use tutor_app_back.Gradebook.Journal.Outcome.{write_journal-JournalOutcome, journal-stored}
use tutor_app_back.Gradebook.Journal.Register.{upserted}
use tutor_app_back.Gradebook.Journal.Settlement.{
  Settled, JournalSettled, write_journal-JournalSettled,
}
use tutor_app_back.Gradebook.Journal.{
  charged, MarkAttendance, is_line, find_line, update_line, upsert_line, was_charged, settle,
  write_mark, write_marks,
}
use tutor_app_back.Gradebook.Journal.{WriteJournal, patch_text, patch_lesson}
use tutor_app_back.Gradebook.Journal.{store_journal}
use tutor_app_back.Gradebook.Journal.{check_marks, write_journal}
use tutor_app_back.Gradebook.Journal.{marked_ids}
use tutor_app_back.Prelude.{
  ◌≡◌, refl, sym, ap, ◌∙◌, inl, inr, Bool, true, false, ◌&&◌, Option, none, some, List, [], ◌∷◌,
  arith, ◌==◌, Bool-cases, get_or, eq_of_some, any, All, contains,
}
use tutor_app_back.Prelude.Table.{Key, Table, lookup, modify, lookup-modify}
use tutor_app_back.Model.{
  cancelled, User, LessonRow, AttendanceRow, Db, ok, write, >>=-eq-ok, >>=-ok,
}
use tutor_app_back.Model.Text.{Text}

update_line-upserted :
    (lesson : Key) (m : MarkAttendance) (o : Option AttendanceRow)
    → update_line m (upserted lesson m o) ≡ upserted lesson m o
update_line-upserted lesson m none = ground arith
update_line-upserted lesson m (some a) = ground arith

charged-upserted :
    (lesson : Key) (m : MarkAttendance) (o : Option AttendanceRow)
    → was_charged (some (upserted lesson m o)) ≡ charged m.status
charged-upserted lesson m none = refl
charged-upserted lesson m (some a) = refl

upsert_line-same :
    (lesson : Key) (m : MarkAttendance) (a : AttendanceRow) (rows : List AttendanceRow)
    → find_line lesson m.student_id rows ≡ some a
    → update_line m a ≡ a
    → upsert_line lesson m rows ≡ rows
upsert_line-same lesson m a [] h same = cc
upsert_line-same lesson m a (b ∷ rows) h same = elim (Bool-cases (is_line lesson m.student_id b)) [
  | inl here ↦
      rw here (
        ap (λ x. x ∷ rows)
          (subst (λ x. update_line m x ≡ x) (sym (eq_of_some (rw here at h))) same))
  | inr there ↦ rw there (ap (λ x. b ∷ x) (upsert_line-same lesson m a rows (rw there at h) same))
]

settle_same : (k : Key) (b : Bool) (db : Db) → settle k b b db ≡ (ok tt, db)
settle_same k true db = refl
settle_same k false db = refl

-- A mark that is on the register already changes nothing.
write_mark-again :
    (lesson : Key) (m : MarkAttendance) (o : Option AttendanceRow) (db : Db)
    → find_line lesson m.student_id db.attendances ≡ some (upserted lesson m o)
    → write_mark lesson m db ≡ (ok tt, db)
unfolding write_mark
write_mark-again lesson m o db h =
    rw (h, charged-upserted lesson m o)
      (>>=-ok (settle m.student_id (charged m.status) (charged m.status))
          (λ _. write (λ e. record e { attendances = upsert_line lesson m e.attendances })) db db
          (settle_same m.student_id (charged m.status) db)
        ∙ ap (λ rows. (ok tt, record db { attendances = rows }))
            (upsert_line-same lesson m (upserted lesson m o) db.attendances h
              (update_line-upserted lesson m o)))

write_marks-again :
    (lesson : Key) (ms : List MarkAttendance) (db₀ db : Db)
    → All (Settled lesson db₀ db) ms
    → write_marks lesson ms db ≡ (ok tt, db)
unfolding write_marks
write_marks-again lesson [] db₀ db h = refl
write_marks-again lesson (m ∷ ms) db₀ db ((line, _), h) =
    >>=-ok (write_mark lesson m) (λ _. write_marks lesson ms) db db
      (write_mark-again lesson m (find_line lesson m.student_id db₀.attendances) db line)
    ∙ write_marks-again lesson ms db₀ db h

settle-frame :
    (k : Key) (was now : Bool) (db : Db) {d : Db}
    → settle k was now db ≡ (ok tt, d)
    → (d.members ≡ db.members) × (d.lessons ≡ db.lessons)
settle-frame k true true db h = ground arith
settle-frame k false false db h = ground arith
settle-frame k true false db h = ground arith
settle-frame k false true db h = ground arith

write_mark-frame :
    (lesson : Key) (m : MarkAttendance) (db : Db) {d : Db}
    → write_mark lesson m db ≡ (ok tt, d)
    → (d.members ≡ db.members) × (d.lessons ≡ db.lessons)
unfolding write_mark
write_mark-frame lesson m db h =
    let was = was_charged (find_line lesson m.student_id db.attendances) in
    let (_, d, settled, written) =
      >>=-eq-ok (settle m.student_id was (charged m.status))
        (λ _. write (λ e. record e { attendances = upsert_line lesson m e.attendances })) db h in
    ground (arith, settle-frame m.student_id was (charged m.status) db settled)

-- Marking touches neither the memberships nor the lessons.
write_marks-frame :
    (lesson : Key) (ms : List MarkAttendance) (db : Db) {d : Db}
    → write_marks lesson ms db ≡ (ok tt, d)
    → (d.members ≡ db.members) × (d.lessons ≡ db.lessons)
unfolding write_marks
write_marks-frame lesson [] db h = (ap (λ p. p.1.members) (sym h), ap (λ p. p.1.lessons) (sym h))
write_marks-frame lesson (m ∷ ms) db h =
    let (_, d, first, rest) = >>=-eq-ok (write_mark lesson m) (λ _. write_marks lesson ms) db h in
    let (members, lessons) = write_mark-frame lesson m db first in
    let (members', lessons') = write_marks-frame lesson ms d rest in
    (members' ∙ members, lessons' ∙ lessons)

patch_text_idem : (s old : Option Text) → patch_text s (patch_text s old) ≡ patch_text s old
patch_text_idem none old = refl
patch_text_idem (some s) old = refl

patch_lesson_idem :
    (dto : WriteJournal) (l : LessonRow)
    → patch_lesson dto (patch_lesson dto l) ≡ patch_lesson dto l
patch_lesson_idem dto l =
    ground (arith, patch_text_idem dto.topic l.topic, patch_text_idem dto.homework l.homework)

modify_idem {ℓ} :
    {V : Type ℓ} (k : Key) (f : V → V) (t : Table V)
    → ((v : V) → f (f v) ≡ f v)
    → modify k f (modify k f t) ≡ modify k f t
modify_idem k f [] h = refl
modify_idem k f ((j, v) ∷ t) h = ground (arith, h v, modify_idem k f t h)

store_journal-frame :
    (lesson : Key) (dto : WriteJournal) (db : Db) {d : Db}
    → store_journal lesson dto db ≡ (ok tt, d)
    → (d.members ≡ db.members) × (d.lessons ≡ modify lesson (patch_lesson dto) db.lessons)
unfolding store_journal
store_journal-frame lesson dto db h =
    let (_, d, marks, written) =
      >>=-eq-ok (write_marks lesson (get_or dto.attendance []))
        (λ _. write (λ e. record e { lessons = modify lesson (patch_lesson dto) e.lessons })) db
        h in
    ground (arith, write_marks-frame lesson (get_or dto.attendance []) db marks)

-- A journal that is stored already changes nothing when it is stored again.
store_journal-again :
    (lesson : Key) (dto : WriteJournal) (db d : Db)
    → JournalSettled lesson (get_or dto.attendance []) db d
    → store_journal lesson dto db ≡ (ok tt, d)
    → store_journal lesson dto d ≡ (ok tt, d)
unfolding store_journal
store_journal-again lesson dto db d settled h =
    let ms = get_or dto.attendance [] in
    let (_, lessons) = store_journal-frame lesson dto db h in
    let patch = modify lesson (patch_lesson dto) in
    let same : patch d.lessons ≡ d.lessons =
      ap patch lessons
      ∙ modify_idem lesson (patch_lesson dto) db.lessons (patch_lesson_idem dto)
      ∙ sym lessons in
    >>=-ok (write_marks lesson ms)
      (λ _. write (λ e. record e { lessons = modify lesson (patch_lesson dto) e.lessons })) d d
      (write_marks-again lesson ms db d settled.marked)
    ∙ ap (λ t. (ok tt, record d { lessons = t })) same

module _ (lesson : Key) (dto : WriteJournal) (db d : Db) (members : d.members ≡ db.members)
    (lessons : d.lessons ≡ modify lesson (patch_lesson dto) db.lessons) where
  student_ids_for-same : student_ids_for lesson d ≡ student_ids_for lesson db
  unfolding student_ids_for
  student_ids_for-same =
      rw (members, lessons)
        (ground (arith, lookup-modify lesson lesson (patch_lesson dto) db.lessons))

  check_marks-again :
      (ms : List MarkAttendance)
      → check_marks lesson ms db ≡ (ok tt, db)
      → check_marks lesson ms d ≡ (ok tt, d)
  unfolding check_marks
  check_marks-again [] h = refl
  check_marks-again (m ∷ ms) h = ground (arith, student_ids_for-same)

  find_reachable-again :
      (user : User) (l : LessonRow)
      → find_reachable user lesson db ≡ (ok l, db)
      → find_reachable user lesson d ≡ (ok (patch_lesson dto l), d)
  find_reachable-again user l h =
      let (found, reaches) = (find_reachable_iff user lesson db l).0 h in
      (find_reachable_iff user lesson d (patch_lesson dto l)).1 (
        rw lessons (ground (arith, lookup-modify lesson lesson (patch_lesson dto) db.lessons)),
        reaches,
      )

-- Sending the same journal again returns the same lesson and changes nothing: no student is charged a
-- second time.
pub write_journal-again :
    (user : User) (lesson : Key) (dto : WriteJournal) (db : Db) {l : LessonRow} {d : Db}
    → write_journal user lesson dto db ≡ (ok l, d)
    → write_journal user lesson dto d ≡ (ok l, d)
write_journal-again user lesson dto db {l} {d} h =
    elim (write_journal-JournalOutcome user lesson dto db) [
      | inl (e, refused) ↦ absurd (cc)
      | inr (l₀, d₀, found, checked, stored, done) ↦
          let (members, lessons) = store_journal-frame lesson dto db stored in
          let settled = write_journal-JournalSettled user lesson dto db done in
          let again : write_journal user lesson dto d₀ ≡ (ok (patch_lesson dto l₀), d₀) =
            journal-stored user lesson dto d₀ (patch_lesson dto l₀)
              (find_reachable-again lesson dto db d₀ members lessons user l₀ found)
              (check_marks-again lesson dto db d₀ members lessons (get_or dto.attendance [])
                checked)
              d₀ (store_journal-again lesson dto db d₀ settled stored)
            ∙ ap (λ x. (ok x, d₀)) (patch_lesson_idem dto l₀) in
          subst (λ p. write_journal user lesson dto p.1 ≡ p) (sym done ∙ h) again
    ]

journal_cancels :
    (dto : WriteJournal) (m : MarkAttendance) (ms : List MarkAttendance) (l : LessonRow)
    → dto.status ≡ none
    → dto.attendance ≡ some (m ∷ ms)
    → any (λ (x : MarkAttendance). charged x.status) (m ∷ ms) ≡ false
    → (patch_lesson dto l).status ≡ cancelled
journal_cancels dto m ms l no_status marks excused = rw (no_status, marks) (ground arith)

-- The status that a call implies follows the marks of that call alone, and not the register: a call
-- that only excuses students stores the lesson as cancelled and returns it, though another student's line stays on the
-- register and goes on charging them for it.
pub write_journal-cancels_attended :
    (user : User) (lesson : Key) (dto : WriteJournal) (m : MarkAttendance)
    (ms : List MarkAttendance) (s : Key) (db : Db) {l : LessonRow} {d : Db}
    → write_journal user lesson dto db ≡ (ok l, d)
    → dto.status ≡ none
    → dto.attendance ≡ some (m ∷ ms)
    → any (λ (x : MarkAttendance). charged x.status) (m ∷ ms) ≡ false
    → contains s (marked_ids (m ∷ ms)) ≡ false
    → was_charged (find_line lesson s db.attendances) ≡ true
    → (lookup lesson d.lessons ≡ some l)
      × (l.status ≡ cancelled)
      × (was_charged (find_line lesson s d.attendances) ≡ true)
write_journal-cancels_attended user lesson dto m ms s db {l} {d} h no_status marks excused apart
      attended =
    elim (write_journal-JournalOutcome user lesson dto db) [
      | inl (e, refused) ↦ absurd (cc)
      | inr (l₀, d₀, found, _, stored, done) ↦
          let settled = write_journal-JournalSettled user lesson dto db h in
          let same : l ≡ patch_lesson dto l₀ = cc in
          let unnamed : (lesson == lesson && contains s (marked_ids (get_or dto.attendance [])))
              ≡ false =
            rw marks (ground arith) in
          let there : lookup lesson db.lessons ≡ some l₀ =
            ((find_reachable_iff user lesson db l₀).0 found).0 in
          let kept : lookup lesson d₀.lessons ≡ some (patch_lesson dto l₀) =
            ap (lookup lesson) ((store_journal-frame lesson dto db stored).1)
            ∙ ground (arith, there, lookup-modify lesson lesson (patch_lesson dto) db.lessons) in
          let here : d ≡ d₀ = cc in
          (
            ap (λ (e : Db). lookup lesson e.lessons) here ∙ kept ∙ ap some (sym same),
            rw same (journal_cancels dto m ms l₀ no_status marks excused),
            ap was_charged (settled.unmarked lesson s unnamed) ∙ attended,
          )
    ]
