-- ===== src/Gradebook/Progress.antt =====
-- src/gradebook/progress.ts: averages, attendance and counts over plain rows. The arithmetic of doubles is a parameter, and
-- each sum, product and quotient is written in the order of the source.
pub mod Averages
pub mod Counts
use mathlib.Core.List.{foldl}
use tutor_app_back.Prelude.{
  ℕ, ◌+◌, Bool, true, false, Option, none, some, List, ◌==◌, if◌then◌else◌, length, filter,
}
use tutor_app_back.Prelude.Int.{ℤ, pos, leb_ℤ}
use tutor_app_back.Model.{
  LessonStatus, scheduled, completed, cancelled, AttendanceStatus, present, late, absent_excused,
  absent_unexcused, GradeKind, classic, percentage, descriptive,
}

pub record GradeLike : Type 0 where
  pub kind : GradeKind
  pub value : Option ℕ
  pub weight : ℤ

-- The doubles: of the value that a row stores and of an integer, `+`, `*`, `/`, `Math.round` and `=== 0`.
pub record Doubles (Number : Type 0) : Type 0 where
  pub of_value : ℕ → Number
  pub of_integer : ℤ → Number
  pub add : Number → Number → Number
  pub mul : Number → Number → Number
  pub div : Number → Number → Number
  pub round : Number → Number
  pub is_zero : Number → Bool

pub record GradeAverage (Number : Type 0) : Type 0 where
  pub average : Number
  pub count : ℕ

pub record GradeSummary (Number : Type 0) : Type 0 where
  pub count : ℕ
  pub classic_average : Option (GradeAverage Number)
  pub percentage_average : Option (GradeAverage Number)
  pub descriptive_count : ℕ

pub record AttendanceSummary (Number : Type 0) : Type 0 where
  pub present_count : ℕ
  pub late_count : ℕ
  pub absent_excused_count : ℕ
  pub absent_unexcused_count : ℕ
  pub marked : ℕ
  pub rate : Option Number

pub record LessonCounts : Type 0 where
  pub total : ℕ
  pub completed_count : ℕ
  pub cancelled_count : ℕ
  pub scheduled_count : ℕ

pub record ProgressSummary (Number : Type 0) : Type 0 where
  pub lessons : LessonCounts
  pub attendance : AttendanceSummary Number
  pub grades : GradeSummary Number

-- The three sums of the loop of `averageOf`.
pub record Sums (Number : Type 0) : Type 0 where
  pub weighted : Number
  pub weight : Number
  pub count : ℕ

module _ {Number : Type 0} (n : Doubles Number) where
  -- Two decimal places.
  pub round2 : Number → Number
  round2 value = n.div (n.round (n.mul value (n.of_integer (pos 100)))) (n.of_integer (pos 100))

  -- One round: a grade with no value or with no positive weight is passed over.
  pub add_grade : Sums Number → GradeLike → Sums Number
  add_grade s g = elim (g.value) [
    | none ↦ s
    | some v ↦ if leb_ℤ g.weight (pos 0) then s else record {
      weighted = n.add s.weighted (n.mul (n.of_value v) (n.of_integer g.weight));
      weight = n.add s.weight (n.of_integer g.weight);
      count = s.count + 1;
    }
  ]

  pub average_from : Sums Number → Option (GradeAverage Number)
  average_from s =
      if n.is_zero s.weight
      then none
      else some (record { average = round2 (n.div s.weighted s.weight); count = s.count })

  abbrev pub no_sums : Sums Number
  no_sums = record { weighted = n.of_integer (pos 0); weight = n.of_integer (pos 0); count = 0 }

  unfoldable pub average_of : List GradeLike → Option (GradeAverage Number)
  unfolding add_grade average_from round2
  average_of grades = average_from (foldl add_grade no_sums grades)

abbrev pub kind_eq : GradeKind → GradeKind → Bool
kind_eq classic classic = true
kind_eq percentage percentage = true
kind_eq descriptive descriptive = true
kind_eq _ _ = false

abbrev pub of_kind : GradeKind → List GradeLike → List GradeLike
of_kind k grades = filter (λ g. kind_eq g.kind k) grades

unfoldable pub summarise_grades :
    {Number : Type 0} → Doubles Number → List GradeLike → GradeSummary Number
unfolding average_of
summarise_grades n grades = record {
  count = length grades;
  classic_average = average_of n (of_kind classic grades);
  percentage_average = average_of n (of_kind percentage grades);
  descriptive_count = length (of_kind descriptive grades);
}

abbrev pub attendance_eq : AttendanceStatus → AttendanceStatus → Bool
attendance_eq present present = true
attendance_eq late late = true
attendance_eq absent_excused absent_excused = true
attendance_eq absent_unexcused absent_unexcused = true
attendance_eq _ _ = false

abbrev pub count_status : AttendanceStatus → List AttendanceStatus → ℕ
count_status status entries = length (filter (λ e. attendance_eq e status) entries)

unfoldable pub summarise_attendance :
    {Number : Type 0} → Doubles Number → List AttendanceStatus → AttendanceSummary Number
unfolding round2
summarise_attendance n entries =
    let here = count_status present entries in
    let tardy = count_status late entries in
    let excused = count_status absent_excused entries in
    let unexcused = count_status absent_unexcused entries in
    let marked = here + tardy + excused + unexcused in
    record {
      present_count = here;
      late_count = tardy;
      absent_excused_count = excused;
      absent_unexcused_count = unexcused;
      marked = marked;
      rate =
          if marked == 0
          then none
          else some
              (round2 n (n.div (n.of_integer (pos (here + tardy))) (n.of_integer (pos marked))));
    }

abbrev pub lesson_eq : LessonStatus → LessonStatus → Bool
lesson_eq scheduled scheduled = true
lesson_eq completed completed = true
lesson_eq cancelled cancelled = true
lesson_eq _ _ = false

abbrev pub with_status : LessonStatus → List LessonStatus → ℕ
with_status status lessons = length (filter (λ s. lesson_eq s status) lessons)

unfoldable pub summarise_progress :
    {Number : Type 0}
    → Doubles Number
    → List LessonStatus
    → List GradeLike
    → List AttendanceStatus
    → ProgressSummary Number
unfolding summarise_grades summarise_attendance
summarise_progress n lessons grades attendances = record {
  lessons = record {
    total = length lessons;
    completed_count = with_status completed lessons;
    cancelled_count = with_status cancelled lessons;
    scheduled_count = with_status scheduled lessons;
  };
  attendance = summarise_attendance n attendances;
  grades = summarise_grades n grades;
}
