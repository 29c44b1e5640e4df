-- ===== src/Debtors/Booked.antt =====
-- The lessons to come of a student, as `bookedPerStudent` of src/reports/debtors.service.ts counts them.
use tutor_app_back.Debtors.{
  is_to_come, add_one, count_of, add_own, own_counts, add_wanted, group_members, group_counts,
  booked_per_student,
}
use tutor_app_back.Prelude.{
  ℕ, ◌+◌, ◌≡◌, Bool, true, ◌&&◌, Option, none, some, List, [], ◌∷◌, arith, ◌==◌, if◌then◌else◌,
  contains, once, times,
}
use tutor_app_back.Prelude.Int.{ℤ}
use tutor_app_back.Prelude.Table.{Key, Table, count}
use tutor_app_back.Model.{MemberRow, LessonRow, Db, is_key}

count_of-add_one :
    (s k : Key) (t : Table ℕ)
    → count_of s (add_one k t) ≡ (if s == k then count_of s t + 1 else count_of s t)
count_of-add_one s k [] = ground arith
count_of-add_one s k ((j, n) ∷ t) = ground (arith, count_of-add_one s k t)

-- The lessons to come that are the student's own.
abbrev pub own_lessons : ℤ → Key → Table LessonRow → ℕ
own_lessons now s t = count (λ l. is_to_come now l && is_key s l.student_id) t

count_of-add_own :
    (b : Bool) (ids : List Key) (s : Key) (acc : Table ℕ) (o : Option Key)
    → contains s ids ≡ true
    → count_of s (add_own b ids o acc) ≡ count_of s acc + once (b && is_key s o)
count_of-add_own b ids s acc none wanted = ground arith
count_of-add_own b ids s acc (some j) wanted = ground (arith, wanted, count_of-add_one s j acc)

own_counts-count :
    (now : ℤ) (ids : List Key) (s : Key) (acc : Table ℕ) (t : Table LessonRow)
    → contains s ids ≡ true
    → count_of s (own_counts now ids acc t) ≡ count_of s acc + own_lessons now s t
unfolding own_counts
own_counts-count now ids s acc [] wanted = omega arith
own_counts-count now ids s acc ((k, l) ∷ t) wanted = ground (
  arith,
  own_counts-count now ids s (add_own (is_to_come now l) ids l.student_id acc) t wanted,
  count_of-add_own (is_to_come now l) ids s acc l.student_id wanted,
)

count_of-add_wanted :
    (ids : List Key) (s : Key) (ks : List Key) (acc : Table ℕ)
    → contains s ids ≡ true
    → count_of s (add_wanted ids ks acc) ≡ count_of s acc + times s ks
unfolding add_wanted
count_of-add_wanted ids s [] acc wanted = omega arith
count_of-add_wanted ids s (k ∷ ks) acc wanted = ground (
  arith,
  wanted,
  count_of-add_wanted ids s ks (if contains k ids then add_one k acc else acc) wanted,
  count_of-add_one s k acc,
)

-- The lessons to come of the student's groups, each as often as the student is a member.
abbrev pub group_lessons : ℤ → Key → List MemberRow → Table LessonRow → ℕ
group_lessons now s ms [] = 0
group_lessons now s ms ((k, l) ∷ t) =
    (if is_to_come now l then times s (group_members l ms) else 0) + group_lessons now s ms t

group_counts-count :
    (now : ℤ) (ids : List Key) (s : Key) (ms : List MemberRow) (acc : Table ℕ) (t : Table LessonRow)
    → contains s ids ≡ true
    → count_of s (group_counts now ids ms acc t) ≡ count_of s acc + group_lessons now s ms t
unfolding group_counts
group_counts-count now ids s ms acc [] wanted = omega arith
group_counts-count now ids s ms acc ((k, l) ∷ t) wanted = ground (
  arith,
  group_counts-count now ids s ms
      (if is_to_come now l then add_wanted ids (group_members l ms) acc else acc) t wanted,
  count_of-add_wanted ids s (group_members l ms) acc wanted,
)

-- The number of lessons booked of a student on the list: the lessons to come that are the student's own,
-- and those of the groups the student is a member of.
pub booked_per_student_lem :
    (now : ℤ) (ids : List Key) (s : Key) (db : Db)
    → contains s ids ≡ true
    → count_of s (booked_per_student now ids db)
      ≡ own_lessons now s db.lessons + group_lessons now s db.members db.lessons
unfolding booked_per_student
booked_per_student_lem now ids s db wanted = ground (
  arith,
  own_counts-count now ids s [] db.lessons wanted,
  group_counts-count now ids s db.members (own_counts now ids [] db.lessons) db.lessons wanted,
)
