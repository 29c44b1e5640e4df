-- ===== src/Reports/Taught.antt =====
-- Whom `countStudentsTaught` of src/reports/reports.service.ts counts.
use tutor_app_back.Reports.{own_students, taught_groups, add_members, taught_students, add_some}
use tutor_app_back.Reports.{count_students_taught}
use tutor_app_back.Prelude.{
  ◌≡◌, refl, ◌∙◌, inl, inr, Bool, false, ◌&&◌, ◌||◌, Option, none, some, List, [], ◌∷◌, ◌++◌, arith,
  ◌==◌, Bool-cases, length, any, contains, add_key,
}
use tutor_app_back.Prelude.Table.{Key, Table}
use tutor_app_back.Model.{MemberRow, LessonRow, is_key}

contains-append :
    (s k : Key) (ks : List Key) → contains s (ks ++ k ∷ []) ≡ (contains s ks || s == k)
contains-append s k [] = ground arith
contains-append s k (j ∷ ks) = ground (arith, contains-append s k ks)

contains-add_key :
    (s k : Key) (ks : List Key) → contains s (add_key k ks) ≡ (contains s ks || s == k)
contains-add_key s k ks = elim (Bool-cases (contains k ks)) [
  | inl there ↦ rw there (ground arith)
  | inr new ↦ rw new (contains-append s k ks)
]

contains-add_some :
    (s : Key) (o : Option Key) (ks : List Key)
    → contains s (add_some o ks) ≡ (contains s ks || is_key s o)
contains-add_some s none ks = ground arith
contains-add_some s (some k) ks = contains-add_key s k ks

abbrev pub taught_alone : Key → Table LessonRow → Bool
taught_alone s t = any (λ (e : Key × LessonRow). is_key s e.1.student_id) t

abbrev pub group_taught : Key → Table LessonRow → Bool
group_taught g t = any (λ (e : Key × LessonRow). is_key g e.1.group_id) t

contains-own_students :
    (s : Key) (acc : List Key) (t : Table LessonRow)
    → contains s (own_students acc t) ≡ (contains s acc || taught_alone s t)
unfolding own_students
contains-own_students s acc [] = ground arith
contains-own_students s acc ((k, l) ∷ t) =
    contains-own_students s (add_some l.student_id acc) t
    ∙ ground (arith, contains-add_some s l.student_id acc)

contains-taught_groups :
    (g : Key) (acc : List Key) (t : Table LessonRow)
    → contains g (taught_groups acc t) ≡ (contains g acc || group_taught g t)
unfolding taught_groups
contains-taught_groups g acc [] = ground arith
contains-taught_groups g acc ((k, l) ∷ t) =
    contains-taught_groups g (add_some l.group_id acc) t
    ∙ ground (arith, contains-add_some g l.group_id acc)

contains-add_members :
    (s : Key) (groups acc : List Key) (ms : List MemberRow)
    → contains s (add_members groups acc ms) ≡ (
        contains s acc
        || any (λ (m : MemberRow). s == m.student_id && contains m.group_id groups) ms)
unfolding add_members
contains-add_members s groups acc [] = ground arith
contains-add_members s groups acc (m ∷ ms) = elim (Bool-cases (contains m.group_id groups)) [
  | inl of_group ↦ rw of_group (
      contains-add_members s groups (add_key m.student_id acc) ms
      ∙ ground (arith, contains-add_key s m.student_id acc))
  | inr other_group ↦ rw other_group (contains-add_members s groups acc ms ∙ ground arith)
]

any-group_taught :
    (s : Key) (t : Table LessonRow) (ms : List MemberRow)
    → any (λ (m : MemberRow). s == m.student_id && contains m.group_id (taught_groups [] t)) ms
      ≡ any (λ (m : MemberRow). s == m.student_id && group_taught m.group_id t) ms
any-group_taught s t [] = refl
any-group_taught s t (m ∷ ms) =
    ground (arith, any-group_taught s t ms, contains-taught_groups m.group_id [] t)

-- No key is listed twice.
abbrev pub IsUnique : List Key → Type 0
IsUnique [] = Unit
IsUnique (k ∷ ks) = (contains k ks ≡ false) × IsUnique ks

append-IsUnique :
    (k : Key) (ks : List Key) → IsUnique ks → contains k ks ≡ false → IsUnique (ks ++ k ∷ [])
append-IsUnique k [] u new = (refl, tt)
append-IsUnique k (j ∷ ks) (fresh, u) new =
    (ground (arith, contains-append j k ks), append-IsUnique k ks u (ground arith))

add_key-IsUnique : (k : Key) (ks : List Key) → IsUnique ks → IsUnique (add_key k ks)
add_key-IsUnique k ks u = elim (Bool-cases (contains k ks)) [
  | inl there ↦ rw there u
  | inr new ↦ rw new (append-IsUnique k ks u new)
]

add_some-IsUnique : (o : Option Key) (ks : List Key) → IsUnique ks → IsUnique (add_some o ks)
add_some-IsUnique none ks u = u
add_some-IsUnique (some k) ks u = add_key-IsUnique k ks u

own_students-IsUnique :
    (acc : List Key) (t : Table LessonRow) → IsUnique acc → IsUnique (own_students acc t)
unfolding own_students
own_students-IsUnique acc [] u = u
own_students-IsUnique acc ((k, l) ∷ t) u =
    own_students-IsUnique (add_some l.student_id acc) t (add_some-IsUnique l.student_id acc u)

add_members-IsUnique :
    (groups acc : List Key) (ms : List MemberRow)
    → IsUnique acc
    → IsUnique (add_members groups acc ms)
unfolding add_members
add_members-IsUnique groups acc [] u = u
add_members-IsUnique groups acc (m ∷ ms) u = elim (Bool-cases (contains m.group_id groups)) [
  | inl of_group ↦ rw of_group (
      add_members-IsUnique groups (add_key m.student_id acc) ms
        (add_key-IsUnique m.student_id acc u))
  | inr other_group ↦ rw other_group (add_members-IsUnique groups acc ms u)
]

-- `countStudentsTaught` is the length of a list without repetition that holds a student exactly when one of the
-- lessons is theirs alone, or they are in a group that one of the lessons is for.
pub students_taught_once :
    (t : Table LessonRow) (ms : List MemberRow)
    → (count_students_taught t ms ≡ length (taught_students t ms))
      × IsUnique (taught_students t ms)
      × ((s : Key)
          → contains s (taught_students t ms) ≡ (
              taught_alone s t
              || any (λ (m : MemberRow). s == m.student_id && group_taught m.group_id t) ms))
unfolding count_students_taught
students_taught_once t ms = (
  refl,
  add_members-IsUnique (taught_groups [] t) (own_students [] t) ms (own_students-IsUnique [] t tt),
  λ s.
      contains-add_members s (taught_groups [] t) (own_students [] t) ms
      ∙ ground (arith, contains-own_students s [] t, any-group_taught s t ms),
)
