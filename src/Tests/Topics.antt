-- ===== src/Tests/Topics.antt =====
-- Subjects, evaluated on the small school.
use tutor_app_back.Subjects.{SubjectUsage, usage, hide, create, rename}
use tutor_app_back.Subjects.Hiding.{HideOutcome, hide_outcome}
use tutor_app_back.Subjects.Names.{HasDistinctNames, names_stay_distinct}
use tutor_app_back.Tests.{teacher, head, north, subject_row}
use tutor_app_back.Prelude.{◌≡◌, refl, Bool, true, false, ◌&&◌, ◌||◌, some, [], ◌∷◌, arith, ◌==◌}
use tutor_app_back.Prelude.Int.{pos}
use tutor_app_back.Prelude.Table.{Key, lookup}
use tutor_app_back.Model.{SubjectRow, ok}
use tutor_app_back.Model.Text.{Text, ascii, trim}

names_apart : HasDistinctNames north.subjects
names_apart j k a b apart first second school same = ground (arith, first, second, same, apart)

-- The names that the search for this one matches, with `_` for any one character.
abbrev matches : Text → Text → Bool
matches [] [] = true
matches (c ∷ s) (d ∷ t) = (d == 95 || c == d) && matches s t
matches [] (d ∷ t) = false
matches (c ∷ s) [] = false

names_stay_distinct_example :
    HasDistinctNames (create matches teacher (ascii "Greek") north).1.subjects
    × HasDistinctNames (rename matches teacher 51 (ascii "Greek") north).1.subjects
    × ((s : SubjectRow) (k : Key) (a : SubjectRow)
        → (create matches teacher (ascii "Greek") north).0 ≡ ok s
        → lookup k north.subjects ≡ some a
        → a.school_id ≡ teacher.school_id
        → matches a.name (trim (ascii "Greek")) ≡ false)
names_stay_distinct_example =
    names_stay_distinct matches teacher 51 (ascii "Greek") north (omega arith, (omega arith, tt))
      names_apart

hide_outcome_example : HideOutcome (pos 500) head 51 north (hide (pos 500) head 51 north)
hide_outcome_example = hide_outcome (pos 500) head 51 north

hidden : hide (pos 500) head 51 north ≡ (
  ok (record (subject_row "Latin") { hidden_at = some (pos 500) }),
  (hide (pos 500) head 51 north).1,
)
unfolding hide
hidden = refl

abbrev algebra : SubjectUsage
algebra = record {
  subject = subject_row "Algebra";
  students = north.students;
  groups = north.groups;
  upcoming_lessons = 2;
  past_lessons = 0;
  can_hide = false;
}

algebra_is_used : usage (pos 500) head 50 north ≡ (ok algebra, north)
unfolding usage
algebra_is_used = refl
