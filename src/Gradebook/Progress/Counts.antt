-- ===== src/Gradebook/Progress/Counts.antt =====
-- The counts of a progress summary leave nothing out.

use tutor_app_back.Gradebook.Progress.{
  GradeLike, Doubles, of_kind, count_status, summarise_attendance, with_status, summarise_progress,
}
use tutor_app_back.Prelude.{◌+◌, ◌≡◌, ◌↔◌, none, List, [], ◌∷◌, arith, length}
use tutor_app_back.Model.{
  LessonStatus, scheduled, completed, cancelled, AttendanceStatus, present, late, absent_excused,
  absent_unexcused, classic, percentage, descriptive,
}

statuses_partition :
    (l : List LessonStatus)
    → with_status completed l + with_status cancelled l + with_status scheduled l ≡ length l
statuses_partition [] = omega arith
statuses_partition (completed ∷ l) = omega (arith, statuses_partition l)
statuses_partition (cancelled ∷ l) = omega (arith, statuses_partition l)
statuses_partition (scheduled ∷ l) = omega (arith, statuses_partition l)

marks_partition :
    (l : List AttendanceStatus)
    → count_status present l
        + count_status late l
        + count_status absent_excused l
        + count_status absent_unexcused l
      ≡ length l
marks_partition [] = omega arith
marks_partition (present ∷ l) = omega (arith, marks_partition l)
marks_partition (late ∷ l) = omega (arith, marks_partition l)
marks_partition (absent_excused ∷ l) = omega (arith, marks_partition l)
marks_partition (absent_unexcused ∷ l) = omega (arith, marks_partition l)

kinds_partition :
    (l : List GradeLike)
    → length (of_kind classic l) + length (of_kind percentage l) + length (of_kind descriptive l)
      ≡ length l
kinds_partition [] = omega arith
kinds_partition (g ∷ l) = ground (arith, kinds_partition l)

module _ {Number : Type 0} (n : Doubles Number) where
  rate-none_iff : (l : List AttendanceStatus) → ((summarise_attendance n l).rate ≡ none) ↔ (l ≡ [])
  unfolding summarise_attendance
  rate-none_iff [] = ground arith
  rate-none_iff (a ∷ l) = ground (arith, marks_partition (a ∷ l))

  -- Every lesson is counted under one status, every entry of the register under one mark, and the
  -- grades that count as classic, percentage or descriptive are all the grades; the rate is absent
  -- exactly when nothing was marked.
  pub summarise_progress_exhaustive :
      (ls : List LessonStatus) (gs : List GradeLike) (marks : List AttendanceStatus)
      → let p = summarise_progress n ls gs marks in
        (p.lessons.completed_count + p.lessons.cancelled_count + p.lessons.scheduled_count
          ≡ p.lessons.total)
        × (p.attendance.marked ≡ length marks)
        × (length (of_kind classic gs) + length (of_kind percentage gs) + p.grades.descriptive_count
            ≡ p.grades.count)
        × ((p.attendance.rate ≡ none) ↔ (marks ≡ []))
  unfolding summarise_progress
  summarise_progress_exhaustive ls gs marks =
      (statuses_partition ls, marks_partition marks, kinds_partition gs, rate-none_iff marks)
