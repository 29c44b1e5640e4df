-- ===== src/Gradebook/Journal/Register.antt =====
-- What a journal that was stored leaves on the register, line by line.
use tutor_app_back.Gradebook.Journal.{
  MarkAttendance, find_line, update_line, new_line, upsert_line, key_set_from,
}
use tutor_app_back.Gradebook.Journal.{is_line, marked_ids, has_duplicates}
use tutor_app_back.Prelude.{
  suc, ◌+◌, ◌≤◌, ◌≡◌, refl, ap, inl, inr, Bool, false, ◌&&◌, ◌||◌, Option, none, some, List, [],
  ◌∷◌, ◌++◌, arith, ◌==◌, if◌then◌else◌, Bool-cases, length, length-append, All, contains,
}
use tutor_app_back.Prelude.Table.{Key}
use tutor_app_back.Model.{AttendanceRow}

-- The line that an upsert leaves under its key.
abbrev pub upserted : Key → MarkAttendance → Option AttendanceRow → AttendanceRow
upserted lesson m none = new_line lesson m
upserted lesson m (some a) = update_line m a

abbrev pub same_line : Key → Key → Key → Key → Bool
same_line lesson student l s = lesson == l && student == s

pub find_line-upsert_line :
    (l s lesson : Key) (m : MarkAttendance) (rows : List AttendanceRow)
    → find_line l s (upsert_line lesson m rows) ≡ (
        if same_line lesson m.student_id l s
        then some (upserted lesson m (find_line lesson m.student_id rows))
        else find_line l s rows)
find_line-upsert_line l s lesson m [] = ground arith
find_line-upsert_line l s lesson m (a ∷ rows) = elim (Bool-cases (is_line lesson m.student_id a)) [
  | inl here ↦ ground arith
  | inr there ↦ ground (arith, find_line-upsert_line l s lesson m rows)
]

-- No key twice.
abbrev pub Distinct : List Key → Type 0
Distinct [] = Unit
Distinct (k ∷ ks) = (contains k ks ≡ false) × Distinct ks

length-key_set_from-le : (acc ks : List Key) → length (key_set_from acc ks) ≤ length acc + length ks
length-key_set_from-le acc [] = omega arith
length-key_set_from-le acc (k ∷ ks) = elim (Bool-cases (contains k acc)) [
  | inl old ↦ rw old (omega (arith, length-key_set_from-le acc ks))
  | inr new ↦
      rw new (omega (arith, length-key_set_from-le (acc ++ k ∷ []) ks, length-append acc (k ∷ [])))
]

contains-append :
    (j k : Key) (acc : List Key) → contains j (acc ++ k ∷ []) ≡ (contains j acc || j == k)
contains-append j k [] = ground arith
contains-append j k (a ∷ acc) = ground (arith, contains-append j k acc)

-- The keys are new to the set and to one another, where the set grew by one for each.
abbrev NewTo : List Key → List Key → Type 0
NewTo acc ks = All (λ j. contains j acc ≡ false) ks

NewTo-snoc :
    (acc : List Key) (k : Key) (ks : List Key)
    → NewTo (acc ++ k ∷ []) ks
    → NewTo acc ks × (contains k ks ≡ false)
NewTo-snoc acc k [] h = (tt, refl)
NewTo-snoc acc k (j ∷ ks) (new, h) = ground (arith, contains-append j k acc, NewTo-snoc acc k ks h)

Distinct-key_set_from :
    (acc ks : List Key)
    → length (key_set_from acc ks) ≡ length acc + length ks
    → NewTo acc ks × Distinct ks
Distinct-key_set_from acc [] h = (tt, tt)
Distinct-key_set_from acc (k ∷ ks) h = elim (Bool-cases (contains k acc)) [
  | inl old ↦ absurd (omega (arith, length-key_set_from-le acc ks, rw old at h))
  | inr new ↦
      let grown : length (key_set_from (acc ++ k ∷ []) ks) ≡ length (acc ++ k ∷ []) + length ks =
        omega (arith, rw new at h, length-append acc (k ∷ [])) in
      let (news, distinct) = Distinct-key_set_from (acc ++ k ∷ []) ks grown in
      let (old_news, apart) = NewTo-snoc acc k ks news in ((new, old_news), (apart, distinct))
]

length-marked_ids : (ms : List MarkAttendance) → length (marked_ids ms) ≡ length ms
length-marked_ids [] = refl
length-marked_ids (m ∷ ms) = ap suc (length-marked_ids ms)

pub Distinct-of_has_duplicates :
    (ms : List MarkAttendance) → has_duplicates ms ≡ false → Distinct (marked_ids ms)
Distinct-of_has_duplicates ms h =
    (Distinct-key_set_from [] (marked_ids ms) (ground (arith, length-marked_ids ms))).1
