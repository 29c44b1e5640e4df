-- ===== src/Gradebook/Journal/Settlement.antt =====
-- What a journal that was stored does to the line and the balance of each student.
use tutor_app_back.Gradebook.Journal.Register.{
  Distinct-of_has_duplicates, upserted, same_line, find_line-upsert_line, Distinct,
}
use tutor_app_back.Gradebook.Journal.Balance.{settlement, write_mark_effect}
use tutor_app_back.Gradebook.Journal.{
  charged, MarkAttendance, find_line, was_charged, add_balance, write_mark, write_marks, marked_ids,
  WriteJournal, check_marks, patch_lesson, store_journal, write_journal,
}
use mathlib.Core.Option
use mathlib.Core.Path.{subst}
use tutor_app_back.Gradebook.Journal.Outcome.{write_journal-JournalOutcome}
use tutor_app_back.Prelude.{
  ◌≡◌, refl, sym, ap, ◌∙◌, inl, inr, Bool, true, false, ◌&&◌, Option, none, some, List, [], ◌∷◌,
  arith, ◌==◌, Option-cases, get_or, all, All, contains,
}
use tutor_app_back.Prelude.Int.{ℤ, pos, ◌+ℤ◌, int_laws}
use tutor_app_back.Prelude.Table.{Key, lookup, modify, lookup-modify}
use tutor_app_back.Model.{User, StudentRow, LessonRow, Db, ok, write, >>=-eq-ok}

pub balance_of : Key → Db → Option ℤ
balance_of s db = Option.map (λ (r : StudentRow). r.paid_lessons_left) (lookup s db.students)

module _ (lesson : Key) (m : MarkAttendance) (db : Db) {d : Db}
    (first : write_mark lesson m db ≡ (ok tt, d)) where
  write_mark-unmarked :
      (l s : Key)
      → same_line lesson m.student_id l s ≡ false
      → find_line l s d.attendances ≡ find_line l s db.attendances
  write_mark-unmarked l s apart =
      ap (find_line l s) ((write_mark_effect lesson m db first).0)
      ∙ find_line-upsert_line l s lesson m db.attendances
      ∙ (ground arith)

  write_mark-unnamed :
      (s : Key) → (s == m.student_id) ≡ false → lookup s d.students ≡ lookup s db.students
  write_mark-unnamed s apart =
      let was = was_charged (find_line lesson m.student_id db.attendances) in
      let change = add_balance (settlement was (charged m.status)) in
      elim ((write_mark_effect lesson m db first).1) [
        | inl (_, kept) ↦ ap (lookup s) kept
        | inr changed ↦
            ap (lookup s) changed ∙ ground (arith, lookup-modify s m.student_id change db.students)
      ]

-- A line that no mark of the call names is as it was.
pub write_marks-unmarked :
    (l s lesson : Key) (ms : List MarkAttendance) (db : Db) {db' : Db}
    → write_marks lesson ms db ≡ (ok tt, db')
    → (lesson == l && contains s (marked_ids ms)) ≡ false
    → find_line l s db'.attendances ≡ find_line l s db.attendances
unfolding write_marks
write_marks-unmarked l s lesson [] db h apart = ap (λ p. find_line l s p.1.attendances) (sym h)
write_marks-unmarked l s lesson (m ∷ ms) db {db'} h apart =
    let (_, d, first, rest) = >>=-eq-ok (write_mark lesson m) (λ _. write_marks lesson ms) db h in
    write_marks-unmarked l s lesson ms d rest (ground arith)
    ∙ write_mark-unmarked lesson m db first l s (ground arith)

-- A student's row is as it was where no mark names them.
pub write_marks-unnamed :
    (s lesson : Key) (ms : List MarkAttendance) (db : Db) {db' : Db}
    → write_marks lesson ms db ≡ (ok tt, db')
    → contains s (marked_ids ms) ≡ false
    → lookup s db'.students ≡ lookup s db.students
unfolding write_marks
write_marks-unnamed s lesson [] db h apart = ap (λ p. lookup s p.1.students) (sym h)
write_marks-unnamed s lesson (m ∷ ms) db {db'} h apart =
    let (_, d, first, rest) = >>=-eq-ok (write_mark lesson m) (λ _. write_marks lesson ms) db h in
    write_marks-unnamed s lesson ms d rest (ground arith)
    ∙ write_mark-unnamed lesson m db first s (ground arith)

balance_of-lookup :
    (s : Key) (db db' : Db)
    → lookup s db'.students ≡ lookup s db.students
    → balance_of s db' ≡ balance_of s db
unfolding balance_of
balance_of-lookup s db db' h = ap (Option.map (λ (r : StudentRow). r.paid_lessons_left)) h

-- The effect of one mark between two states: its line is the upserted one, and its balance has moved
-- by the settlement.
abbrev pub Settled : Key → Db → Db → MarkAttendance → Type 0
Settled lesson db db' m =
    let old = find_line lesson m.student_id db.attendances in
    (find_line lesson m.student_id db'.attendances ≡ some (upserted lesson m old))
    × (balance_of m.student_id db'
        ≡ Option.map (λ b. b +ℤ settlement (was_charged old) (charged m.status))
            (balance_of m.student_id db))

settlement_same : (b : Bool) → settlement b b ≡ pos 0
settlement_same true = refl
settlement_same false = refl

+ℤ-zero : (a : ℤ) → a +ℤ pos 0 ≡ a
+ℤ-zero a = omega int_laws

map-zero : (z : ℤ) (o : Option ℤ) → z ≡ pos 0 → Option.map (λ b. b +ℤ z) o ≡ o
map-zero z none h = refl
map-zero z (some b) h = ap some (ap (λ c. b +ℤ c) h ∙ +ℤ-zero b)

balance_of-modify :
    (s : Key) (change : ℤ) (db db' : Db)
    → db'.students ≡ modify s (add_balance change) db.students
    → balance_of s db' ≡ Option.map (λ b. b +ℤ change) (balance_of s db)
unfolding balance_of
balance_of-modify s change db db' h = rw h (
    rw (lookup-modify s s (add_balance change) db.students)
      elim (Option-cases (lookup s db.students)) [
        | inl missing ↦ rw missing (ground arith)
        | inr (r, found) ↦ rw found (ground arith)
      ])

write_mark-Settled :
    (lesson : Key) (m : MarkAttendance) (db : Db) {db' : Db}
    → write_mark lesson m db ≡ (ok tt, db')
    → Settled lesson db db' m
write_mark-Settled lesson m db {db'} h =
    let (lines, balances) = write_mark_effect lesson m db h in
    let was = was_charged (find_line lesson m.student_id db.attendances) in
    let now = charged m.status in
    (
      ap (find_line lesson m.student_id) lines
          ∙ find_line-upsert_line lesson m.student_id lesson m db.attendances
          ∙ (ground arith),
      elim balances [
        | inl (same, kept) ↦
            balance_of-lookup m.student_id db db' (ap (lookup m.student_id) kept)
            ∙ sym (
                map-zero (settlement was now) (balance_of m.student_id db)
                  (ap (settlement was) (sym same) ∙ settlement_same was))
        | inr changed ↦ balance_of-modify m.student_id (settlement was now) db db' changed
      ],
    )

-- The marks that come after another student's mark are settled against the state before it as well.
Settled-before :
    (lesson : Key) (m : MarkAttendance) (ms : List MarkAttendance) (db d db' : Db)
    → write_mark lesson m db ≡ (ok tt, d)
    → contains m.student_id (marked_ids ms) ≡ false
    → All (Settled lesson d db') ms
    → All (Settled lesson db db') ms
Settled-before lesson m [] db d db' h apart all = tt
Settled-before lesson m (x ∷ ms) db d db' h apart ((line, balance), all) =
    let another : (x.student_id == m.student_id) ≡ false = ground arith in
    let same_old = write_mark-unmarked lesson m db h lesson x.student_id (ground arith) in
    let same_balance =
      balance_of-lookup x.student_id db d (write_mark-unnamed lesson m db h x.student_id another) in
    (
      (rw same_old at line, rw (same_old, same_balance) at balance),
      Settled-before lesson m ms db d db' h (ground arith) all,
    )

pub write_marks-Settled :
    (lesson : Key) (ms : List MarkAttendance) (db : Db) {db' : Db}
    → Distinct (marked_ids ms)
    → write_marks lesson ms db ≡ (ok tt, db')
    → All (Settled lesson db db') ms
unfolding write_marks balance_of
write_marks-Settled lesson [] db distinct h = tt
write_marks-Settled lesson (m ∷ ms) db {db'} (apart, distinct) h =
    let (_, d, first, rest) = >>=-eq-ok (write_mark lesson m) (λ _. write_marks lesson ms) db h in
    let (line, balance) = write_mark-Settled lesson m db first in
    (
      (
        write_marks-unmarked lesson m.student_id lesson ms d rest (ground arith) ∙ line,
        ap (Option.map (λ (r : StudentRow). r.paid_lessons_left))
              (write_marks-unnamed m.student_id lesson ms d rest apart)
            ∙ balance,
      ),
      Settled-before lesson m ms db d db' first apart
          (write_marks-Settled lesson ms d distinct rest),
    )

-- What a journal that was stored does, line by line and balance by balance.
pub record JournalSettled (lesson : Key) (ms : List MarkAttendance) (db db' : Db) : Type 0 where
  pub marked : All (Settled lesson db db') ms
  pub unmarked :
      (l s : Key)
      → (lesson == l && contains s (marked_ids ms)) ≡ false
      → find_line l s db'.attendances ≡ find_line l s db.attendances
  pub unnamed :
      (s : Key) → contains s (marked_ids ms) ≡ false → lookup s db'.students ≡ lookup s db.students

Distinct-of_check_marks :
    (lesson : Key) (ms : List MarkAttendance) (db : Db)
    → check_marks lesson ms db ≡ (ok tt, db)
    → Distinct (marked_ids ms)
unfolding check_marks
Distinct-of_check_marks lesson [] db h = tt
Distinct-of_check_marks lesson (m ∷ ms) db h = Distinct-of_has_duplicates (m ∷ ms) (ground arith)

store_journal-JournalSettled :
    (lesson : Key) (dto : WriteJournal) (db : Db) {db' : Db}
    → Distinct (marked_ids (get_or dto.attendance []))
    → store_journal lesson dto db ≡ (ok tt, db')
    → JournalSettled lesson (get_or dto.attendance []) db db'
unfolding store_journal balance_of
store_journal-JournalSettled lesson dto db distinct h =
    let ms = get_or dto.attendance [] in
    let (_, d, marks, written) =
      >>=-eq-ok (write_marks lesson ms)
        (λ _. write (λ e. record e { lessons = modify lesson (patch_lesson dto) e.lessons })) db
        h in
    subst (JournalSettled lesson ms db) (ap (λ p. p.1) written) (record {
      marked = write_marks-Settled lesson ms db distinct marks;
      unmarked = λ l s apart. write_marks-unmarked l s lesson ms db marks apart;
      unnamed = λ s apart. write_marks-unnamed s lesson ms db marks apart;
    })

-- When the call returns, every student whom it marks has one line for the lesson, with the new status
-- and the homework that was sent or else the old one, and their balance has moved by exactly the
-- difference of the two statuses; every other line and every other student is as before.
pub write_journal-JournalSettled :
    (user : User) (lesson : Key) (dto : WriteJournal) (db : Db) {l : LessonRow} {db' : Db}
    → write_journal user lesson dto db ≡ (ok l, db')
    → JournalSettled lesson (get_or dto.attendance []) db db'
write_journal-JournalSettled user lesson dto db h =
    elim (write_journal-JournalOutcome user lesson dto db) [
      | inl (e, refused) ↦ absurd (cc)
      | inr (_, d, _, checked, stored, done) ↦
          let ms = get_or dto.attendance [] in
          subst (JournalSettled lesson ms db) (ap (λ p. p.1) (sym done ∙ h)) (
            store_journal-JournalSettled lesson dto db
              (Distinct-of_check_marks lesson ms db checked) stored)
    ]
