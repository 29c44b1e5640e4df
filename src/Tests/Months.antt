-- ===== src/Tests/Months.antt =====
-- A report, evaluated on the small school.
use tutor_app_back.Reports.{ReportBreakdown, ReportQuery, report_of}
use tutor_app_back.Reports.Totals.{
  reported, taught, has_register, sum_where, BreaksDown, report_adds_up,
}
use tutor_app_back.Lessons.{Window}
use tutor_app_back.Tests.Grades.{whole}
use tutor_app_back.Tests.{head, north}
use tutor_app_back.Prelude.{◌+◌, ◌≡◌, not, ◌&&◌, none, some, List}
use tutor_app_back.Prelude.Int.{pos}
use tutor_app_back.Prelude.Table.{Key}

abbrev month : Window
month = record { from = pos 0; to = pos 5000 }

abbrev about : Key → ReportQuery
about owner = record { from = none; to = none; tutor_id = some owner }

report_adds_up_example :
    let r = report_of whole head month none north in
    (r.lessons.total ≡ sum_where (λ _. 1) (λ _ l. reported head month none l) north.lessons)
    × (r.lessons.completed_count
        ≡ sum_where (λ _. 1) (λ _ l. taught head month none l) north.lessons)
    × (r.minutes_taught
        ≡ sum_where (λ l. l.duration_minutes) (λ _ l. taught head month none l) north.lessons)
    × (r.lessons.unwritten
        ≡ sum_where
            (λ _. 1)
            (λ k l. taught head month none l && not (has_register north k))
            north.lessons)
    × (r.lessons.completed_count + r.lessons.cancelled_count + r.lessons.scheduled_count
        ≡ r.lessons.total)
    × (BreaksDown r.minutes_taught r.lessons.completed_count r.by_subject)
    × ((rows : List ReportBreakdown)
        → r.by_tutor ≡ some rows
        → BreaksDown r.minutes_taught r.lessons.completed_count rows)
report_adds_up_example = report_adds_up whole head month none north
