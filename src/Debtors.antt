-- ===== src/Debtors.antt =====
-- src/reports/debtors.service.ts: who has run out of paid lessons. `before` says that one name collates before
-- another; it is the platform's.
pub mod Booked
pub mod Listed
use mathlib.Core.Option
use tutor_app_back.Reports.{covers, asks_for_other}
use tutor_app_back.Lessons.{member_ids}
use tutor_app_back.Prelude.{
  ℕ, ◌+◌, Bool, true, false, ◌&&◌, ◌||◌, Option, none, some, List, [], ◌∷◌, map, ltb, ◌==◌,
  if◌then◌else◌, get_or, filter, contains,
}
use tutor_app_back.Prelude.Int.{ℤ, pos, neg_part, ltb_ℤ, leb_ℤ}
use tutor_app_back.Prelude.Table.{Key, Table, lookup, find_many, keys}
use tutor_app_back.Model.{
  is_admin, LessonStatus, scheduled, completed, cancelled, UserRow, User, StudentRow, MemberRow,
  LessonRow, AttendanceRow, Db, only_admin_other_tutor, Action, pure, gets, ◌>>=◌, ◌>>◌, throw_if,
}
use tutor_app_back.Model.Text.{Text}

pub record DebtorQuery : Type 0 where
  pub tutor_id : Option Key
  pub at_or_below : Option ℤ

pub record Debtor : Type 0 where
  pub student_id : Key
  pub name : Text
  pub tutor_id : Key
  pub tutor_name : Option Text
  pub paid_lessons_left : ℤ
  pub lessons_owed : ℕ
  pub lessons_booked : ℕ
  pub last_taught_at : Option ℤ

-- `tutorScope`
unfoldable pub debtor_scope : User → DebtorQuery → Action (Option Key)
debtor_scope user q =
    if is_admin user.role
    then pure q.tutor_id
    else (throw_if (asks_for_other user q.tutor_id) only_admin_other_tutor >> pure (some user.id))

abbrev pub is_scheduled : LessonStatus → Bool
is_scheduled scheduled = true
is_scheduled completed = false
is_scheduled cancelled = false

abbrev pub is_to_come : ℤ → LessonRow → Bool
is_to_come now l = is_scheduled l.status && leb_ℤ now l.starts_at

-- `counts.set(studentId, (counts.get(studentId) ?? 0) + 1)`
abbrev pub add_one : Key → Table ℕ → Table ℕ
add_one k [] = (k, 1) ∷ []
add_one k ((j, n) ∷ t) = if k == j then (j, n + 1) ∷ t else (j, n) ∷ add_one k t

-- `counts.get(studentId) ?? 0`
abbrev pub count_of : Key → Table ℕ → ℕ
count_of k t = get_or (lookup k t) 0

-- The student of a lesson to come, when it has one that the list is about.
abbrev pub add_own : Bool → List Key → Option Key → Table ℕ → Table ℕ
add_own to_come ids none t = t
add_own to_come ids (some s) t = if contains s ids && to_come then add_one s t else t

-- The lessons alone, counted by student.
pub own_counts : ℤ → List Key → Table ℕ → Table LessonRow → Table ℕ
own_counts now ids acc [] = acc
own_counts now ids acc ((k, l) ∷ t) =
    own_counts now ids (add_own (is_to_come now l) ids l.student_id acc) t

pub add_wanted : List Key → List Key → Table ℕ → Table ℕ
add_wanted ids [] t = t
add_wanted ids (s ∷ ss) t = add_wanted ids ss (if contains s ids then add_one s t else t)

abbrev pub group_members : LessonRow → List MemberRow → List Key
group_members l ms = elim (l.group_id) [ none ↦ [] | some g ↦ member_ids g ms ]

-- The lessons of groups, counted for everybody wanted who is in the room.
pub group_counts : ℤ → List Key → List MemberRow → Table ℕ → Table LessonRow → Table ℕ
unfolding add_wanted
group_counts now ids ms acc [] = acc
group_counts now ids ms acc ((k, l) ∷ t) =
    group_counts now ids ms
      (if is_to_come now l then add_wanted ids (group_members l ms) acc else acc) t

unfoldable pub booked_per_student : ℤ → List Key → Db → Table ℕ
unfolding own_counts group_counts
booked_per_student now ids db =
    group_counts now ids db.members (own_counts now ids [] db.lessons) db.lessons

-- The lines of the register of these students, with the time of their lesson.
abbrev pub taught_lines : List Key → Table LessonRow → List AttendanceRow → List (Key × ℤ)
taught_lines ids t [] = []
taught_lines ids t (a ∷ rows) = elim (lookup a.lesson_id t) [
  | none ↦ taught_lines ids t rows
  | some l ↦
      if contains a.student_id ids
      then (a.student_id, l.starts_at) ∷ taught_lines ids t rows
      else taught_lines ids t rows
]

-- `orderBy: { lesson: { startsAt: 'desc' } }`
abbrev pub insert_line : Key × ℤ → List (Key × ℤ) → List (Key × ℤ)
insert_line (k, at) [] = (k, at) ∷ []
insert_line (k, at) ((j, later) ∷ rows) =
    if ltb_ℤ at later then (j, later) ∷ insert_line (k, at) rows else (k, at) ∷ (j, later) ∷ rows

pub latest_first : List (Key × ℤ) → List (Key × ℤ)
latest_first [] = []
latest_first (r ∷ rows) = insert_line r (latest_first rows)

-- `last.get(studentId)`: the first line of a student in the order of the query.
unfoldable pub last_taught : List Key → Db → Key → Option ℤ
unfolding latest_first
last_taught ids db student =
    lookup student (latest_first (taught_lines ids db.lessons db.attendances))

abbrev pub is_at_or_below : User → Option Key → ℤ → StudentRow → Bool
is_at_or_below user scope limit s =
    s.school_id == user.school_id && (covers scope s.tutor_id && leb_ℤ s.paid_lessons_left limit)

-- `Math.max(0, -paidLessonsLeft)`
abbrev pub owed : ℤ → ℕ
owed balance = neg_part balance

abbrev pub debtor_of : Table UserRow → Table ℕ → (Key → Option ℤ) → Key → StudentRow → Debtor
debtor_of users booked taught k s = record {
  student_id = k;
  name = s.name;
  tutor_id = s.tutor_id;
  tutor_name = Option.map (λ (u : UserRow). u.name) (lookup s.tutor_id users);
  paid_lessons_left = s.paid_lessons_left;
  lessons_owed = owed s.paid_lessons_left;
  lessons_booked = count_of k booked;
  last_taught_at = taught k;
}

abbrev pub debtors_from :
    Table UserRow → Table ℕ → (Key → Option ℤ) → Table StudentRow → List Debtor
debtors_from users booked taught [] = []
debtors_from users booked taught ((k, s) ∷ t) =
    debtor_of users booked taught k s ∷ debtors_from users booked taught t

abbrev pub is_worth_listing : Debtor → Bool
is_worth_listing d = ltb 0 d.lessons_owed || ltb 0 d.lessons_booked

module _ (before : Text → Text → Bool) where
  -- `byUrgency` is negative: the first stands before the second.
  abbrev pub is_more_urgent : Debtor → Debtor → Bool
  is_more_urgent a b =
      ltb b.lessons_owed a.lessons_owed
      || (a.lessons_owed == b.lessons_owed
          && (ltb b.lessons_booked a.lessons_booked
              || (a.lessons_booked == b.lessons_booked && before a.name b.name)))

  abbrev pub insert_debtor : Debtor → List Debtor → List Debtor
  insert_debtor d [] = d ∷ []
  insert_debtor d (e ∷ rows) = if is_more_urgent e d then e ∷ insert_debtor d rows else d ∷ e ∷ rows

  pub sort_debtors : List Debtor → List Debtor
  sort_debtors [] = []
  sort_debtors (d ∷ rows) = insert_debtor d (sort_debtors rows)

  unfoldable pub debtors_in : ℤ → User → Option Key → ℤ → Db → List Debtor
  unfolding booked_per_student last_taught sort_debtors
  debtors_in now user scope limit db =
      let students = find_many (is_at_or_below user scope limit) db.students in
      let ids = keys students in
      let booked = booked_per_student now ids db in
      sort_debtors
        (filter is_worth_listing (debtors_from db.users booked (last_taught ids db) students))

  unfoldable pub list : ℤ → User → DebtorQuery → Action (List Debtor)
  unfolding debtor_scope debtors_in
  list now user q = do
    scope ← debtor_scope user q
    gets (debtors_in now user scope (get_or q.at_or_below (pos 0)))
