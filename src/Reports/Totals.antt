-- ===== src/Reports/Totals.antt =====
-- The totals of a breakdown of src/reports/reports.service.ts, and of the counts beside it.
use mathlib.Core.Path.{subst}
use tutor_app_back.Gradebook.Progress.{Doubles}
use tutor_app_back.Reports.{
  Window, lesson_eq, ReportBreakdown, ReportQuery, tally, group_rows, insert_row, sort_rows,
  breakdown, is_busier, minutes_of, report_of, tutor_scope, in_report, subject_key, tutor_key,
  statuses_in, is_unwritten,
}
use tutor_app_back.Reports.{tutor_breakdown}
use tutor_app_back.Prelude.{
  ℕ, zero, suc, ◌+◌, ◌≤◌, ◌<◌, ◌≡◌, refl, ap, ◌↔◌, ◌⊎◌, inl, inr, Bool, not, ◌&&◌, Option, none,
  some, List, [], ◌∷◌, arith, ◌==◌, if◌then◌else◌, Bool-cases, eq_of_some, length, filter, any,
  sum_by, take, length-take,
}
use tutor_app_back.Prelude.Int.{ltb_ℤ, leb_ℤ}
use tutor_app_back.Prelude.Table.{Key, Table, find_many}
use tutor_app_back.Model.{
  tutor, admin, scheduled, completed, cancelled, User, LessonRow, AttendanceRow, Db, ok,
}
use tutor_app_back.Model.Text.{Text}

abbrev pub minutes_in : List ReportBreakdown → ℕ
minutes_in rows = sum_by (λ (r : ReportBreakdown). r.minutes) rows

abbrev pub lessons_in : List ReportBreakdown → ℕ
lessons_in rows = sum_by (λ (r : ReportBreakdown). r.lessons) rows

tally-totals :
    (k : Option Key × Option Text) (m : ℕ) (rows : List ReportBreakdown)
    → (minutes_in (tally k m rows) ≡ minutes_in rows + m)
      × (lessons_in (tally k m rows) ≡ lessons_in rows + 1)
unfolding tally
tally-totals (id, name) m [] = ground arith
tally-totals (id, name) m (r ∷ rows) = ground (arith, tally-totals (id, name) m rows)

group_rows-totals :
    (key_of : LessonRow → Option Key × Option Text) (acc : List ReportBreakdown)
    (t : Table LessonRow)
    → (minutes_in (group_rows key_of acc t) ≡ minutes_in acc + minutes_of t)
      × (lessons_in (group_rows key_of acc t) ≡ lessons_in acc + length t)
unfolding group_rows
group_rows-totals key_of acc [] = ground arith
group_rows-totals key_of acc ((k, l) ∷ t) =
    let (m, n) = group_rows-totals key_of (tally (key_of l) l.duration_minutes acc) t in
    let (a, b) = tally-totals (key_of l) l.duration_minutes acc in
    (omega (arith, m, a), omega (arith, n, b))

module _ (f : ReportBreakdown → ℕ) where
  insert_row-sum :
      (r : ReportBreakdown) (rows : List ReportBreakdown)
      → sum_by f (insert_row r rows) ≡ f r + sum_by f rows
  insert_row-sum r [] = refl
  insert_row-sum r (s ∷ rows) = elim (Bool-cases (is_busier s r)) [
    | inl behind ↦ rw behind (omega (arith, insert_row-sum r rows))
    | inr before ↦ rw before refl
  ]

  sort_rows-sum : (rows : List ReportBreakdown) → sum_by f (sort_rows rows) ≡ sum_by f rows
  unfolding sort_rows
  sort_rows-sum [] = refl
  sort_rows-sum (r ∷ rows) = omega (arith, insert_row-sum r (sort_rows rows), sort_rows-sum rows)

  sum_by-take-le : (n : ℕ) (rows : List ReportBreakdown) → sum_by f (take n rows) ≤ sum_by f rows
  sum_by-take-le zero rows = omega arith
  sum_by-take-le (suc n) [] = omega arith
  sum_by-take-le (suc n) (r ∷ rows) = omega (arith, sum_by-take-le n rows)

insert_row-length :
    (r : ReportBreakdown) (rows : List ReportBreakdown)
    → length (insert_row r rows) ≡ 1 + length rows
insert_row-length r [] = refl
insert_row-length r (s ∷ rows) = elim (Bool-cases (is_busier s r)) [
  | inl behind ↦ rw behind (omega (arith, insert_row-length r rows))
  | inr before ↦ rw before (omega arith)
]

sort_rows-length : (rows : List ReportBreakdown) → length (sort_rows rows) ≡ length rows
unfolding sort_rows
sort_rows-length [] = refl
sort_rows-length (r ∷ rows) =
    omega (arith, insert_row-length r (sort_rows rows), sort_rows-length rows)

take-all : (n : ℕ) (rows : List ReportBreakdown) → length rows ≤ n → take n rows ≡ rows
take-all zero [] h = refl
take-all zero (r ∷ rows) h = absurd (omega arith)
take-all (suc n) [] h = refl
take-all (suc n) (r ∷ rows) h = ap (λ t. r ∷ t) (take-all n rows (omega arith))

-- A breakdown has at most twenty rows and never counts more lessons or minutes than there were; when it has
-- fewer than twenty rows it counts all of them.
pub breakdown_totals :
    (key_of : LessonRow → Option Key × Option Text) (t : Table LessonRow)
    → let rows = breakdown key_of t in
      (length rows ≤ 20)
      × (minutes_in rows ≤ minutes_of t)
      × (lessons_in rows ≤ length t)
      × (length rows < 20 → (minutes_in rows ≡ minutes_of t) × (lessons_in rows ≡ length t))
unfolding breakdown
breakdown_totals key_of t =
    let made = group_rows key_of [] t in
    let sorted = sort_rows made in
    let (ms, ls) = group_rows-totals key_of [] t in
    let m = sort_rows-sum (λ r. r.minutes) made in
    let l = sort_rows-sum (λ r. r.lessons) made in
    let few : length (take 20 sorted) < 20 → take 20 sorted ≡ sorted =
      λ h. take-all 20 sorted (omega (arith, h, length-take 20 sorted)) in
    (
      omega (arith, length-take 20 sorted),
      omega (arith, sum_by-take-le (λ r. r.minutes) 20 sorted, m, ms),
      omega (arith, sum_by-take-le (λ r. r.lessons) 20 sorted, l, ls),
      λ h. (rw (few h) (omega (arith, m, ms)), rw (few h) (omega (arith, l, ls))),
    )

-- A tutor's report covers their own work alone, and asking about a colleague is refused; an admin's covers
-- whom they name, or the school.
pub tutor_scope_iff :
    (user : User) (q : ReportQuery) (db : Db) (scope : Option Key)
    → (tutor_scope user q db ≡ (ok scope, db)) ↔ (
        ((user.role ≡ admin) × (scope ≡ q.tutor_id))
        ⊎ ((user.role ≡ tutor)
            × (scope ≡ some user.id)
            × ((q.tutor_id ≡ none) ⊎ (q.tutor_id ≡ some user.id))))
unfolding tutor_scope
tutor_scope_iff user q db scope = ground arith

lessons_partition :
    (t : Table LessonRow)
    → length (find_many (λ l. lesson_eq l.status completed) t)
        + statuses_in cancelled t
        + statuses_in scheduled t
      ≡ length t
lessons_partition [] = refl
lessons_partition ((k, l) ∷ t) = ground (arith, lessons_partition t)

-- The lesson is of the school and begins in the window.
abbrev pub in_month : User → Window → LessonRow → Bool
in_month user w l =
    l.school_id == user.school_id && (leb_ℤ w.from l.starts_at && ltb_ℤ l.starts_at w.to)

-- And it is the tutor's where the report is of one.
abbrev pub reported : User → Window → Option Key → LessonRow → Bool
reported user w none l = in_month user w l
reported user w (some t) l = l.tutor_id == t && in_month user w l

abbrev pub taught : User → Window → Option Key → LessonRow → Bool
taught user w scope l = reported user w scope l && lesson_eq l.status completed

-- Somebody's line is on the register of the lesson.
abbrev pub has_register : Db → Key → Bool
has_register db k = any (λ (a : AttendanceRow). a.lesson_id == k) db.attendances

-- This much for each of these lessons.
abbrev pub sum_where : (LessonRow → ℕ) → (Key → LessonRow → Bool) → Table LessonRow → ℕ
sum_where f p [] = 0
sum_where f p ((k, l) ∷ t) = (if p k l then f l else 0) + sum_where f p t

in_report-reported :
    (user : User) (scope : Option Key) (w : Window) (l : LessonRow)
    → in_report user scope w l ≡ reported user w scope l
in_report-reported user none w l = ground arith
in_report-reported user (some t) w l = ground arith

module _ (user : User) (scope : Option Key) (w : Window) where
  abbrev done_in : Table LessonRow → Table LessonRow
  done_in t = find_many (λ l. lesson_eq l.status completed) (find_many (in_report user scope w) t)

  total-where :
      (t : Table LessonRow)
      → length (find_many (in_report user scope w) t)
        ≡ sum_where (λ _. 1) (λ _ l. reported user w scope l) t
  total-where [] = refl
  total-where ((k, l) ∷ t) = rw (in_report-reported user scope w l) (ground (arith, total-where t))

  completed-where :
      (t : Table LessonRow)
      → length (done_in t) ≡ sum_where (λ _. 1) (λ _ l. taught user w scope l) t
  completed-where [] = refl
  completed-where ((k, l) ∷ t) =
      rw (in_report-reported user scope w l) (ground (arith, completed-where t))

  minutes-where :
      (t : Table LessonRow)
      → minutes_of (done_in t)
        ≡ sum_where (λ l. l.duration_minutes) (λ _ l. taught user w scope l) t
  minutes-where [] = refl
  minutes-where ((k, l) ∷ t) =
      rw (in_report-reported user scope w l) (ground (arith, minutes-where t))

  unwritten-where :
      (db : Db) (t : Table LessonRow)
      → length (filter (is_unwritten db.attendances) (done_in t))
        ≡ sum_where (λ _. 1) (λ k l. taught user w scope l && not (has_register db k)) t
  unwritten-where db [] = refl
  unwritten-where db ((k, l) ∷ t) =
      rw (in_report-reported user scope w l) (ground (arith, unwritten-where db t))

-- A breakdown of these totals: at most twenty rows that never count more, and fewer rows count all of it.
abbrev pub BreaksDown : ℕ → ℕ → List ReportBreakdown → Type 0
BreaksDown minutes lessons rows =
    (length rows ≤ 20)
    × (minutes_in rows ≤ minutes)
    × (lessons_in rows ≤ lessons)
    × (length rows < 20 → (minutes_in rows ≡ minutes) × (lessons_in rows ≡ lessons))

tutor_breakdown-BreaksDown :
    (user : User) (scope : Option Key) (done : Table LessonRow) (db : Db)
    (rows : List ReportBreakdown)
    → tutor_breakdown user scope done db ≡ some rows
    → BreaksDown (minutes_of done) (length done) rows
tutor_breakdown-BreaksDown user none done db rows h =
    subst (BreaksDown (minutes_of done) (length done)) (eq_of_some h)
      (breakdown_totals (tutor_key user db) done)
tutor_breakdown-BreaksDown user (some t) done db rows h = absurd (cc)

-- What a report counts are the lessons of the school that begin in its window, of one tutor where it is of one: all of
-- them, the completed ones with their minutes, and the completed ones whose register has no line. Every lesson is
-- completed, cancelled or scheduled; and each breakdown has at most twenty rows, counts no more lessons and minutes than were
-- taught, and counts all of them where it has fewer rows.
pub report_adds_up :
    {Number : Type 0} (n : Doubles Number) (user : User) (w : Window) (scope : Option Key) (db : Db)
    → let r = report_of n user w scope db in
      (r.lessons.total ≡ sum_where (λ _. 1) (λ _ l. reported user w scope l) db.lessons)
      × (r.lessons.completed_count ≡ sum_where (λ _. 1) (λ _ l. taught user w scope l) db.lessons)
      × (r.minutes_taught
          ≡ sum_where (λ l. l.duration_minutes) (λ _ l. taught user w scope l) db.lessons)
      × (r.lessons.unwritten
          ≡ sum_where (λ _. 1) (λ k l. taught user w scope l && not (has_register db k)) db.lessons)
      × (r.lessons.completed_count + r.lessons.cancelled_count + r.lessons.scheduled_count
          ≡ r.lessons.total)
      × (BreaksDown r.minutes_taught r.lessons.completed_count r.by_subject)
      × ((rows : List ReportBreakdown)
          → r.by_tutor ≡ some rows
          → BreaksDown r.minutes_taught r.lessons.completed_count rows)
unfolding report_of
report_adds_up n user w scope db =
    let found = find_many (in_report user scope w) db.lessons in
    let done = done_in user scope w db.lessons in
    (
      total-where user scope w db.lessons,
      completed-where user scope w db.lessons,
      minutes-where user scope w db.lessons,
      unwritten-where user scope w db db.lessons,
      lessons_partition found,
      breakdown_totals (subject_key db) done,
      tutor_breakdown-BreaksDown user scope done db,
    )
