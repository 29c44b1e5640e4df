-- ===== src/Tests/Journals.antt =====
-- The journal of a lesson, evaluated on the small school.
use tutor_app_back.Gradebook.Journal.{
  MarkAttendance, WriteJournal, write_journal, write_mark, patch_lesson, find_line, was_charged,
}
use tutor_app_back.Gradebook.Journal.Outcome.{JournalOutcome, write_journal-JournalOutcome}
use tutor_app_back.Gradebook.Journal.Balance.{paid_in_all, write_journal-paid_in_all}
use tutor_app_back.Gradebook.Journal.Settlement.{JournalSettled, write_journal-JournalSettled}
use tutor_app_back.Gradebook.Journal.Repeat.{write_journal-again, write_journal-cancels_attended}
use tutor_app_back.Tests.{teacher, north, lesson_row}
use tutor_app_back.Prelude.{◌≡◌, refl, true, none, some, List, [], ◌∷◌}
use tutor_app_back.Prelude.Table.{Key, lookup}
use tutor_app_back.Model.{cancelled, AttendanceStatus, late, absent_excused, LessonRow, Db, ok}

abbrev mark : Key → AttendanceStatus → MarkAttendance
mark student status = record { student_id = student; status = status; homework_done = none }

abbrev journal : List MarkAttendance → WriteJournal
journal ms = record { topic = none; homework = none; attendance = some ms; status = none }

-- Student 20 was excused after all, and student 21 came.
abbrev corrected : WriteJournal
corrected = journal (mark 20 absent_excused ∷ mark 21 late ∷ [])

-- Student 21 alone is excused.
abbrev excuse_one : WriteJournal
excuse_one = journal (mark 21 absent_excused ∷ [])

abbrev marked : LessonRow
marked = patch_lesson corrected (lesson_row none (some 30))

abbrev after : WriteJournal → Db
after dto = (write_journal teacher 40 dto north).1

journal_returns : write_journal teacher 40 corrected north ≡ (ok marked, after corrected)
unfolding write_journal write_mark
journal_returns = refl

write_journal-paid_in_all_example :
    paid_in_all 20 (write_journal teacher 40 corrected north).1 ≡ paid_in_all 20 north
write_journal-paid_in_all_example = write_journal-paid_in_all 20 teacher 40 corrected north

write_journal-JournalSettled_example :
    JournalSettled 40 (mark 20 absent_excused ∷ mark 21 late ∷ []) north (after corrected)
write_journal-JournalSettled_example =
    write_journal-JournalSettled teacher 40 corrected north journal_returns

write_journal-again_example :
    write_journal teacher 40 corrected (after corrected) ≡ (ok marked, after corrected)
write_journal-again_example = write_journal-again teacher 40 corrected north journal_returns

write_journal-JournalOutcome_example : JournalOutcome teacher 40 corrected north
write_journal-JournalOutcome_example = write_journal-JournalOutcome teacher 40 corrected north

excuse_returns :
    write_journal teacher 40 excuse_one north
    ≡ (ok (patch_lesson excuse_one (lesson_row none (some 30))), after excuse_one)
unfolding write_journal write_mark
excuse_returns = refl

write_journal-cancels_attended_example :
    (lookup 40 (after excuse_one).lessons
      ≡ some (patch_lesson excuse_one (lesson_row none (some 30))))
    × ((patch_lesson excuse_one (lesson_row none (some 30))).status ≡ cancelled)
    × (was_charged (find_line 40 20 (after excuse_one).attendances) ≡ true)
write_journal-cancels_attended_example =
    write_journal-cancels_attended teacher 40 excuse_one (mark 21 absent_excused) [] 20 north
      excuse_returns refl refl refl refl refl
