-- ===== src/Reports.antt =====
-- src/reports/reports.service.ts: what was taught in a window, for one tutor or for a school. The value of
-- a grade is in units, as in `Gradebook.Progress`.
pub mod Totals
pub mod Taught
use tutor_app_back.Gradebook.Progress.{
  Doubles, GradeLike, GradeSummary, AttendanceSummary, lesson_eq, summarise_grades,
  summarise_attendance,
}
use tutor_app_back.Gradebook.Standing.{grade_likes}
use tutor_app_back.Lessons.{Window, day_ms, starts_within}
use mathlib.Core.Option
use tutor_app_back.Prelude.{
  ℕ, ◌+◌, ◌*◌, Bool, true, false, not, ◌&&◌, ◌||◌, Option, none, some, List, [], ◌∷◌, map, ltb,
  ◌==◌, if◌then◌else◌, is_some, get_or, length, filter, any, sum_by, take, contains, add_key,
}
use tutor_app_back.Prelude.Int.{ℤ, pos, ◌-ℤ◌, ltb_ℤ, leb_ℤ}
use tutor_app_back.Prelude.Table.{Key, Table, lookup, find_many, count}
use tutor_app_back.Model.{
  is_admin, LessonStatus, scheduled, completed, cancelled, AttendanceStatus, UserRow, User,
  SubjectRow, StudentRow, MemberRow, LessonRow, AttendanceRow, GradeRow, Db,
  window_ends_before_start, window_too_long, only_admin_other_tutor, Action, pure, gets, ◌>>=◌,
  ◌>>◌, throw_if,
}
use tutor_app_back.Model.Text.{Text}

abbrev pub default_report_days : ℕ
default_report_days = 30

abbrev pub max_report_days : ℕ
max_report_days = 400

abbrev pub max_breakdown_rows : ℕ
max_breakdown_rows = 20

pub record ReportQuery : Type 0 where
  pub from : Option ℤ
  pub to : Option ℤ
  pub tutor_id : Option Key

pub record ReportBreakdown : Type 0 where
  pub id : Option Key
  pub name : Option Text
  pub lessons : ℕ
  pub minutes : ℕ

pub record ReportCounts : Type 0 where
  pub total : ℕ
  pub completed_count : ℕ
  pub cancelled_count : ℕ
  pub scheduled_count : ℕ
  pub unwritten : ℕ

pub record Report (Number : Type 0) : Type 0 where
  pub window : Window
  pub scope : Option Key
  pub lessons : ReportCounts
  pub minutes_taught : ℕ
  pub students_taught : ℕ
  pub attendance : AttendanceSummary Number
  pub grades : GradeSummary Number
  pub by_subject : List ReportBreakdown
  pub by_tutor : Option (List ReportBreakdown)

-- The window defaults backwards from its end, and its end to now.
unfoldable pub report_window : ℤ → ReportQuery → Action Window
report_window now q = do
  let to = get_or q.to now
  let from = get_or q.from (to -ℤ pos (default_report_days * day_ms))
  throw_if (leb_ℤ to from) window_ends_before_start
  throw_if (ltb_ℤ (pos (max_report_days * day_ms)) (to -ℤ from)) window_too_long
  pure (record { from = from; to = to })

-- `query.tutorId !== undefined && query.tutorId !== user.id`
abbrev pub asks_for_other : User → Option Key → Bool
asks_for_other user none = false
asks_for_other user (some t) = not (t == user.id)

unfoldable pub tutor_scope : User → ReportQuery → Action (Option Key)
tutor_scope user q =
    if is_admin user.role
    then pure q.tutor_id
    else (throw_if (asks_for_other user q.tutor_id) only_admin_other_tutor >> pure (some user.id))

-- `tutorId === null ? {} : { tutorId }`
abbrev pub covers : Option Key → Key → Bool
covers none owner = true
covers (some t) owner = owner == t

abbrev pub in_report : User → Option Key → Window → LessonRow → Bool
in_report user scope w l =
    l.school_id == user.school_id && (covers scope l.tutor_id && starts_within w l)

abbrev pub add_some : Option Key → List Key → List Key
add_some none ks = ks
add_some (some k) ks = add_key k ks

-- The two sets of `countStudentsTaught`, and then the members of the groups.
pub own_students : List Key → Table LessonRow → List Key
own_students acc [] = acc
own_students acc ((k, l) ∷ t) = own_students (add_some l.student_id acc) t

pub taught_groups : List Key → Table LessonRow → List Key
taught_groups acc [] = acc
taught_groups acc ((k, l) ∷ t) = taught_groups (add_some l.group_id acc) t

pub add_members : List Key → List Key → List MemberRow → List Key
add_members groups acc [] = acc
add_members groups acc (m ∷ ms) =
    add_members groups (if contains m.group_id groups then add_key m.student_id acc else acc) ms

unfoldable pub taught_students : Table LessonRow → List MemberRow → List Key
unfolding own_students taught_groups add_members
taught_students t ms = add_members (taught_groups [] t) (own_students [] t) ms

unfoldable pub count_students_taught : Table LessonRow → List MemberRow → ℕ
unfolding taught_students
count_students_taught t ms = length (taught_students t ms)

-- Equality of two keys of the map of `breakdown`.
abbrev pub same_key : Option Key → Option Key → Bool
same_key none none = true
same_key (some a) (some b) = a == b
same_key none (some b) = false
same_key (some a) none = false

-- One lesson more in the row of its key, which is made where there is none.
pub tally : Option Key × Option Text → ℕ → List ReportBreakdown → List ReportBreakdown
tally (id, name) minutes [] = record { id = id; name = name; lessons = 1; minutes = minutes } ∷ []
tally (id, name) minutes (r ∷ rows) =
    if same_key r.id id
    then record r { lessons = r.lessons + 1; minutes = r.minutes + minutes } ∷ rows
    else r ∷ tally (id, name) minutes rows

pub group_rows :
    (LessonRow → Option Key × Option Text)
    → List ReportBreakdown
    → Table LessonRow
    → List ReportBreakdown
unfolding tally
group_rows key_of acc [] = acc
group_rows key_of acc ((k, l) ∷ t) = group_rows key_of (tally (key_of l) l.duration_minutes acc) t

-- `b.minutes - a.minutes || b.lessons - a.lessons` puts the first before the second.
abbrev pub is_busier : ReportBreakdown → ReportBreakdown → Bool
is_busier a b = ltb b.minutes a.minutes || (a.minutes == b.minutes && ltb b.lessons a.lessons)

-- A stable sort: a row goes behind those that are busier.
abbrev pub insert_row : ReportBreakdown → List ReportBreakdown → List ReportBreakdown
insert_row r [] = r ∷ []
insert_row r (s ∷ rows) = if is_busier s r then s ∷ insert_row r rows else r ∷ s ∷ rows

pub sort_rows : List ReportBreakdown → List ReportBreakdown
sort_rows [] = []
sort_rows (r ∷ rows) = insert_row r (sort_rows rows)

unfoldable pub breakdown :
    (LessonRow → Option Key × Option Text) → Table LessonRow → List ReportBreakdown
unfolding group_rows sort_rows
breakdown key_of t = take max_breakdown_rows (sort_rows (group_rows key_of [] t))

abbrev pub subject_key : Db → LessonRow → Option Key × Option Text
subject_key db l = (
  l.subject_id,
  elim (l.subject_id) [
    | none ↦ none
    | some s ↦ Option.map (λ (r : SubjectRow). r.name) (lookup s db.subjects)
  ],
)

-- The names are those of the users of the caller's school.
abbrev pub tutor_key : User → Db → LessonRow → Option Key × Option Text
tutor_key user db l = (
  some l.tutor_id,
  Option.map (λ (r : UserRow). r.name)
      (lookup l.tutor_id (find_many (λ u. u.school_id == user.school_id) db.users)),
)

abbrev pub statuses_in : LessonStatus → Table LessonRow → ℕ
statuses_in status t = count (λ l. lesson_eq l.status status) t

-- `_count.attendances === 0` of the lesson under this key
abbrev pub is_unwritten : List AttendanceRow → Key × LessonRow → Bool
is_unwritten rows (k, l) = not (any (λ (a : AttendanceRow). a.lesson_id == k) rows)

abbrev pub of_lessons : Table LessonRow → List AttendanceRow → List AttendanceStatus
of_lessons t [] = []
of_lessons t (a ∷ rows) =
    if is_some (lookup a.lesson_id t) then a.status ∷ of_lessons t rows else of_lessons t rows

abbrev pub in_school : Key → Option StudentRow → Bool
in_school school none = false
in_school school (some s) = s.school_id == school

abbrev pub graded_in : User → Option Key → Window → Db → GradeRow → Bool
graded_in user scope w db g =
    in_school user.school_id (lookup g.student_id db.students)
    && (covers scope g.author_id && (leb_ℤ w.from g.created_at && ltb_ℤ g.created_at w.to))

abbrev pub minutes_of : Table LessonRow → ℕ
minutes_of t = sum_by (λ (e : Key × LessonRow). e.1.duration_minutes) t

-- `tutorId === null ? await this.tutorBreakdown(user, completed) : null`
abbrev pub tutor_breakdown :
    User → Option Key → Table LessonRow → Db → Option (List ReportBreakdown)
tutor_breakdown user none done db = some (breakdown (tutor_key user db) done)
tutor_breakdown user (some t) done db = none

unfoldable pub report_of :
    {Number : Type 0} → Doubles Number → User → Window → Option Key → Db → Report Number
unfolding count_students_taught breakdown
report_of n user w scope db =
    let found = find_many (in_report user scope w) db.lessons in
    let done = find_many (λ l. lesson_eq l.status completed) found in
    record {
      window = w;
      scope = scope;
      lessons = record {
        total = length found;
        completed_count = length done;
        cancelled_count = statuses_in cancelled found;
        scheduled_count = statuses_in scheduled found;
        unwritten = length (filter (is_unwritten db.attendances) done);
      };
      minutes_taught = minutes_of done;
      students_taught = count_students_taught found db.members;
      attendance = summarise_attendance n (of_lessons found db.attendances);
      grades = summarise_grades n (grade_likes (find_many (graded_in user scope w db) db.grades));
      by_subject = breakdown (subject_key db) done;
      by_tutor = tutor_breakdown user scope done db;
    }

unfoldable pub summary :
    {Number : Type 0} → Doubles Number → ℤ → User → ReportQuery → Action (Report Number)
unfolding report_window tutor_scope report_of
summary n now user q = do
  w ← report_window now q
  scope ← tutor_scope user q
  gets (report_of n user w scope)
