-- ===== src/Gradebook/Journal/Balance.antt =====
-- What a register does to the balances of the students it names.
use tutor_app_back.Gradebook.Journal.{
  charged, MarkAttendance, is_line, find_line, update_line, upsert_line, was_charged, new_line,
  add_balance, write_mark, settle, WriteJournal, write_marks, store_journal, write_journal,
  patch_lesson,
}
use mathlib.Core.Option
use tutor_app_back.Gradebook.Journal.Outcome.{write_journal-JournalOutcome}
use tutor_app_back.Prelude.{
  ℕ, ◌+◌, ◌≡◌, sym, ap, ◌∙◌, ◌⊎◌, inl, inr, Bool, true, false, Option, some, List, [], ◌∷◌, arith,
  ◌==◌, if◌then◌else◌, Bool-cases, Option-cases, get_or,
}
use tutor_app_back.Prelude.Int.{ℤ, pos, negsuc, pos_part, neg_part, ◌+ℤ◌, int_laws, +ℤ_regroup}
use tutor_app_back.Prelude.Table.{Key, Table, lookup, modify, lookup-modify}
use tutor_app_back.Model.{User, StudentRow, AttendanceRow, Db, ok, write, >>=-eq-ok}

abbrev charge_of : Bool → ℕ
charge_of true = 1
charge_of false = 0

-- One line charges its student one lesson or none.
charge : Key → AttendanceRow → ℕ
charge student a = if a.student_id == student then charge_of (charged a.status) else 0

-- How many lessons the whole register charges a student.
pub charges : Key → List AttendanceRow → ℕ
charges student [] = 0
charges student (a ∷ rows) = charge student a + charges student rows

-- The lessons that a student has paid for: those left and those that the register has spent.
abbrev pub paid_in_all : Key → Db → Option ℤ
paid_in_all student db =
    Option.map (λ (s : StudentRow). s.paid_lessons_left +ℤ pos (charges student db.attendances))
      (lookup student db.students)

-- The charge that a mark of this status makes to a student.
abbrev mark_charge : Key → Key → Bool → ℕ
mark_charge student marked b = if marked == student then charge_of b else 0

charge-update_line :
    (student lesson : Key) (m : MarkAttendance) (a : AttendanceRow)
    → is_line lesson m.student_id a ≡ true
    → (charge student (update_line m a) ≡ mark_charge student m.student_id (charged m.status))
      × (charge student a ≡ mark_charge student m.student_id (charged a.status))
unfolding charge
charge-update_line student lesson m a h = ground arith

charge-new_line :
    (student lesson : Key) (m : MarkAttendance)
    → charge student (new_line lesson m) ≡ mark_charge student m.student_id (charged m.status)
unfolding charge
charge-new_line student lesson m = ground arith

-- One upsert moves the charges by the difference of the two marks.
charges-upsert_line :
    (student lesson : Key) (m : MarkAttendance) (rows : List AttendanceRow)
    → charges student (upsert_line lesson m rows)
        + mark_charge student m.student_id (was_charged (find_line lesson m.student_id rows))
      ≡ charges student rows + mark_charge student m.student_id (charged m.status)
unfolding charges
charges-upsert_line student lesson m [] = ground (arith, charge-new_line student lesson m)
charges-upsert_line student lesson m (a ∷ rows) =
    elim (Bool-cases (is_line lesson m.student_id a)) [
      | inl here ↦
          let (new, old) = charge-update_line student lesson m a here in
          rw (here, new, old) (omega arith)
      | inr there ↦ rw there (omega (arith, charges-upsert_line student lesson m rows))
    ]

zero_shift : (n n' : ℕ) → pos 0 +ℤ pos n' ≡ pos n → pos n' ≡ pos n
zero_shift n n' h = omega (int_laws, ap pos_part h, ap neg_part h)

-- A change of one balance that makes up for a change of the charges.
paid-modify :
    (student k : Key) (change : ℤ) (n n' : ℕ) (t : Table StudentRow)
    → (if k == student then change else pos 0) +ℤ pos n' ≡ pos n
    → Option.map
        (λ (s : StudentRow). s.paid_lessons_left +ℤ pos n')
        (lookup student (modify k (add_balance change) t))
      ≡ Option.map (λ (s : StudentRow). s.paid_lessons_left +ℤ pos n) (lookup student t)
paid-modify student k change n n' t h =
    rw (lookup-modify student k (add_balance change) t) elim (Option-cases (lookup student t)) [
      | inl missing ↦ rw missing (ground arith)
      | inr (s, found) ↦ elim (Bool-cases (k == student)) [
        | inl same ↦ rw (found, same) (ap some (+ℤ_regroup _ _ _ _ (rw same at h)))
        | inr apart ↦
            rw (found, apart)
              (ap some (ap (λ z. s.paid_lessons_left +ℤ z) (zero_shift n n' (rw apart at h))))
      ]
    ]

-- The change that `settle` makes for one mark, and how it answers to the charges.
abbrev pub settlement : Bool → Bool → ℤ
settlement true true = pos 0
settlement false false = pos 0
settlement false true = negsuc 0
settlement true false = pos 1

settlement_balances :
    (student k : Key) (was now : Bool) (n n' : ℕ)
    → n' + mark_charge student k was ≡ n + mark_charge student k now
    → (if k == student then settlement was now else pos 0) +ℤ pos n' ≡ pos n
unfolding ◌+ℤ◌
settlement_balances student k true true n n' h = ground arith
settlement_balances student k false false n n' h = ground arith
settlement_balances student k false true n n' h = ground arith
settlement_balances student k true false n n' h = ground arith

-- What a mark that is written does to the two tables.
abbrev pub MarkEffect : Key → MarkAttendance → Db → Db → Type 0
MarkEffect lesson m db db' =
    let was = was_charged (find_line lesson m.student_id db.attendances) in
    let now = charged m.status in
    (db'.attendances ≡ upsert_line lesson m db.attendances)
    × (((was ≡ now) × (db'.students ≡ db.students))
        ⊎ (db'.students ≡ modify m.student_id (add_balance (settlement was now)) db.students))

settle_effect :
    (k : Key) (was now : Bool) (db : Db) {db' : Db}
    → settle k was now db ≡ (ok tt, db')
    → (db'.attendances ≡ db.attendances)
      × (((was ≡ now) × (db'.students ≡ db.students))
          ⊎ (db'.students ≡ modify k (add_balance (settlement was now)) db.students))
settle_effect k true true db h = ground arith
settle_effect k false false db h = ground arith
settle_effect k true false db h = ground arith
settle_effect k false true db h = ground arith

pub write_mark_effect :
    (lesson : Key) (m : MarkAttendance) (db : Db) {db' : Db}
    → write_mark lesson m db ≡ (ok tt, db')
    → MarkEffect lesson m db db'
unfolding write_mark
write_mark_effect lesson m db {db'} h =
    let was = was_charged (find_line lesson m.student_id db.attendances) in
    let (_, d, settled, written) =
      >>=-eq-ok (settle m.student_id was (charged m.status))
        (λ _. write (λ e. record e { attendances = upsert_line lesson m e.attendances })) db h in
    ground (arith, settle_effect m.student_id was (charged m.status) db settled)

unmoved :
    (student k : Key) (was now : Bool) (n n' : ℕ)
    → was ≡ now
    → n' + mark_charge student k was ≡ n + mark_charge student k now
    → n' ≡ n
unmoved student k was now n n' same h = omega (arith, ap (mark_charge student k) same)

-- A mark that is written leaves what every student has paid for as it was.
write_mark-paid :
    (student lesson : Key) (m : MarkAttendance) (db : Db) {db' : Db}
    → write_mark lesson m db ≡ (ok tt, db')
    → paid_in_all student db' ≡ paid_in_all student db
write_mark-paid student lesson m db {db'} h =
    let was = was_charged (find_line lesson m.student_id db.attendances) in
    let now = charged m.status in
    let (lines, balances) = write_mark_effect lesson m db h in
    let moved = charges-upsert_line student lesson m db.attendances in
    rw lines elim balances [
      | inl (same, kept) ↦ rw kept (
          ap
            (λ n.
              Option.map (λ (s : StudentRow). s.paid_lessons_left +ℤ pos n)
                (lookup student db.students))
            (unmoved student m.student_id was now _ _ same moved))
      | inr changed ↦ rw changed (
          paid-modify student m.student_id (settlement was now) (charges student db.attendances)
            (charges student (upsert_line lesson m db.attendances)) db.students
            (settlement_balances student m.student_id was now _ _ moved))
    ]

write_marks-paid :
    (student lesson : Key) (ms : List MarkAttendance) (db : Db) {db' : Db}
    → write_marks lesson ms db ≡ (ok tt, db')
    → paid_in_all student db' ≡ paid_in_all student db
unfolding write_marks
write_marks-paid student lesson [] db h = ap (paid_in_all student) (sym (ap (λ p. p.1) h))
write_marks-paid student lesson (m ∷ ms) db h =
    let (_, d, first, rest) = >>=-eq-ok (write_mark lesson m) (λ _. write_marks lesson ms) db h in
    write_marks-paid student lesson ms d rest ∙ write_mark-paid student lesson m db first

store_journal-paid :
    (student lesson : Key) (dto : WriteJournal) (db : Db) {db' : Db}
    → store_journal lesson dto db ≡ (ok tt, db')
    → paid_in_all student db' ≡ paid_in_all student db
unfolding store_journal
store_journal-paid student lesson dto db h =
    let (_, d, marked, written) =
      >>=-eq-ok (write_marks lesson (get_or dto.attendance []))
        (λ _. write (λ e. record e { lessons = modify lesson (patch_lesson dto) e.lessons })) db
        h in
    sym (ap (λ p. paid_in_all student p.1) written)
    ∙ write_marks-paid student lesson (get_or dto.attendance []) db marked

-- Whatever the call answers, a student's balance and the lessons that the register has charged them
-- add up to what they did before: every lesson taken is on the register once, and every lesson given
-- back has left it.
pub write_journal-paid_in_all :
    (student : Key) (user : User) (lesson : Key) (dto : WriteJournal) (db : Db)
    → paid_in_all student (write_journal user lesson dto db).1 ≡ paid_in_all student db
write_journal-paid_in_all student user lesson dto db =
    elim (write_journal-JournalOutcome user lesson dto db) [
      | inl (_, refused) ↦ ap (λ p. paid_in_all student p.1) refused
      | inr (l, d, _, _, stored, done) ↦
          ap (λ p. paid_in_all student p.1) done ∙ store_journal-paid student lesson dto db stored
    ]
