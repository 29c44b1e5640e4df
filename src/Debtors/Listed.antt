-- ===== src/Debtors/Listed.antt =====
-- Whom the list of src/reports/debtors.service.ts holds, and in which order.
use tutor_app_back.Debtors.Booked.{own_lessons, group_lessons, booked_per_student_lem}
use tutor_app_back.Debtors.{Debtor, is_more_urgent, insert_debtor, sort_debtors}
use tutor_app_back.Debtors.{DebtorQuery, debtor_scope, list}
use tutor_app_back.Reports.{asks_for_other}
use tutor_app_back.Debtors.{debtor_of, debtors_from, is_worth_listing}
use tutor_app_back.Debtors.{booked_per_student, last_taught, is_at_or_below, owed, debtors_in}
use tutor_app_back.Prelude.{
  ℕ, ◌+◌, ◌≡◌, refl, ap, ◌∙◌, ◌⊎◌, inl, inr, Bool, true, false, not, ◌&&◌, ◌||◌, Option, some, List,
  [], ◌∷◌, arith, ltb, ◌==◌, if◌then◌else◌, Bool-cases, is_some, get_or, filter, any, contains,
}
use tutor_app_back.Prelude.Int.{ℤ, pos}
use tutor_app_back.Prelude.Table.{
  Key, Table, lookup, find_many, keys, IsKeyed, lookup-find_many, find_many-IsKeyed,
  lookup-find_many_out,
}
use tutor_app_back.Model.{
  is_admin, UserRow, User, StudentRow, Db, only_admin_other_tutor, ok, err, gets, >>=-ok, >>=-err,
}
use tutor_app_back.Model.Text.{Text}

abbrev pub lists : Key → List Debtor → Bool
lists s ds = any (λ (d : Debtor). d.student_id == s) ds

module _ (before : Text → Text → Bool) where
  lists-insert_debtor :
      (s : Key) (d : Debtor) (rows : List Debtor)
      → lists s (insert_debtor before d rows) ≡ (d.student_id == s || lists s rows)
  lists-insert_debtor s d [] = ground arith
  lists-insert_debtor s d (e ∷ rows) = ground (arith, lists-insert_debtor s d rows)

  lists-sort_debtors :
      (s : Key) (rows : List Debtor) → lists s (sort_debtors before rows) ≡ lists s rows
  unfolding sort_debtors
  lists-sort_debtors s [] = refl
  lists-sort_debtors s (d ∷ rows) =
      lists-insert_debtor s d (sort_debtors before rows)
      ∙ ap (λ b. d.student_id == s || b) (lists-sort_debtors s rows)

  -- The first of the rows does not stand before the one ahead of it.
  abbrev follows : Debtor → List Debtor → Bool
  follows d [] = true
  follows d (e ∷ rows) = not (is_more_urgent before e d)

  abbrev pub is_ordered : List Debtor → Bool
  is_ordered [] = true
  is_ordered (d ∷ rows) = follows d rows && is_ordered rows

  module _ (one_way : (x y : Text) → before x y ≡ true → before y x ≡ false) where
    is_more_urgent_one_way :
        (d e : Debtor) → is_more_urgent before e d ≡ true → is_more_urgent before d e ≡ false
    is_more_urgent_one_way d e h = ground (arith, h, one_way e.name d.name)

    follows-insert_debtor :
        (d e : Debtor) (rows : List Debtor)
        → follows e rows ≡ true
        → is_more_urgent before e d ≡ true
        → follows e (insert_debtor before d rows) ≡ true
    follows-insert_debtor d e [] h m = ground (arith, is_more_urgent_one_way d e m)
    follows-insert_debtor d e (f ∷ rows) h m = ground (arith, h, is_more_urgent_one_way d e m)

    is_ordered-insert_debtor :
        (d : Debtor) (rows : List Debtor)
        → is_ordered rows ≡ true
        → is_ordered (insert_debtor before d rows) ≡ true
    is_ordered-insert_debtor d [] h = refl
    is_ordered-insert_debtor d (e ∷ rows) h = elim (Bool-cases (is_more_urgent before e d)) [
      | inl m ↦
          ground (arith, h, m, follows-insert_debtor d e rows, is_ordered-insert_debtor d rows)
      | inr n ↦ ground (arith, h, n)
    ]

    is_ordered-sort_debtors : (rows : List Debtor) → is_ordered (sort_debtors before rows) ≡ true
    unfolding sort_debtors
    is_ordered-sort_debtors [] = refl
    is_ordered-sort_debtors (d ∷ rows) =
        is_ordered-insert_debtor d (sort_debtors before rows) (is_ordered-sort_debtors rows)

module _ (users : Table UserRow) (booked : Table ℕ) (taught : Key → Option ℤ) where
  lists-missing :
      (s : Key) (t : Table StudentRow)
      → is_some (lookup s t) ≡ false
      → lists s (filter is_worth_listing (debtors_from users booked taught t)) ≡ false
  lists-missing s [] h = refl
  lists-missing s ((k, r) ∷ t) h = ground (arith, h, lists-missing s t)

  lists-stored :
      (s : Key) (row : StudentRow) (t : Table StudentRow)
      → IsKeyed t
      → lookup s t ≡ some row
      → lists s (filter is_worth_listing (debtors_from users booked taught t))
        ≡ is_worth_listing (debtor_of users booked taught s row)
  lists-stored s row [] keyed h = absurd (cc)
  lists-stored s row ((k, r) ∷ t) (new, keyed) h =
      ground (arith, h, lists-stored s row t keyed, lists-missing s t)

contains-keys :
    (s : Key) (row : StudentRow) (t : Table StudentRow)
    → lookup s t ≡ some row
    → contains s (keys t) ≡ true
contains-keys s row [] h = absurd (cc)
contains-keys s row ((k, r) ∷ t) h = ground (arith, h, contains-keys s row t)

is_ordered-debtors_in :
    (before : Text → Text → Bool)
    → ((x y : Text) → before x y ≡ true → before y x ≡ false)
    → (now : ℤ) (user : User) (scope : Option Key) (limit : ℤ) (db : Db)
    → is_ordered before (debtors_in before now user scope limit db) ≡ true
unfolding debtors_in
is_ordered-debtors_in before one_way now user scope limit db =
    let students = find_many (is_at_or_below user scope limit) db.students in
    let ids = keys students in
    is_ordered-sort_debtors before one_way (
      filter is_worth_listing
        (debtors_from db.users (booked_per_student now ids db) (last_taught ids db) students))

-- The lessons to come of a student: their own and those of their groups.
abbrev pub to_come : ℤ → Key → Db → ℕ
to_come now s db = own_lessons now s db.lessons + group_lessons now s db.members db.lessons

module _ (before : Text → Text → Bool) (now : ℤ) (user : User) (scope : Option Key)
    (limit : ℤ) where
  lists-debtors_in :
      (db : Db) (s : Key) (row : StudentRow)
      → IsKeyed db.students
      → lookup s db.students ≡ some row
      → lists s (debtors_in before now user scope limit db) ≡ (
          is_at_or_below user scope limit row
          && (ltb 0 (owed row.paid_lessons_left) || ltb 0 (to_come now s db)))
  unfolding debtors_in
  lists-debtors_in db s row keyed found = elim (Bool-cases (is_at_or_below user scope limit row)) [
    | inl inside ↦
        let students = find_many (is_at_or_below user scope limit) db.students in
        let ids = keys students in
        let booked = booked_per_student now ids db in
        let there : lookup s students ≡ some row = ground (
          arith,
          lookup-find_many (is_at_or_below user scope limit) s db.students row keyed,
          found,
          inside,
        ) in
        let counted = booked_per_student_lem now ids s db (contains-keys s row students there) in
        lists-sort_debtors before s
          (filter is_worth_listing (debtors_from db.users booked (last_taught ids db) students))
        ∙ lists-stored db.users booked (last_taught ids db) s row students
            (find_many-IsKeyed (is_at_or_below user scope limit) db.students keyed) there
        ∙ rw inside (ap (λ n. ltb 0 (owed row.paid_lessons_left) || ltb 0 n) counted)
    | inr outside ↦
        let students = find_many (is_at_or_below user scope limit) db.students in
        let ids = keys students in
        let booked = booked_per_student now ids db in
        lists-sort_debtors before s
          (filter is_worth_listing (debtors_from db.users booked (last_taught ids db) students))
        ∙ lists-missing db.users booked (last_taught ids db) s students (
            lookup-find_many_out (is_at_or_below user scope limit) s db.students row keyed found
              outside)
        ∙ rw outside refl
  ]

-- Whose students a caller's list is about.
abbrev pub scope_of : User → DebtorQuery → Option Key
scope_of user q = if is_admin user.role then q.tutor_id else some user.id

debtor_scope_lem :
    (user : User) (q : DebtorQuery) (db : Db)
    → ((is_admin user.role ≡ false)
        × (asks_for_other user q.tutor_id ≡ true)
        × (debtor_scope user q db ≡ (err only_admin_other_tutor, db)))
      ⊎ (debtor_scope user q db ≡ (ok (scope_of user q), db))
unfolding debtor_scope
debtor_scope_lem user q db = elim (Bool-cases (is_admin user.role)) [
  | inl whole ↦ inr (ground (arith, whole))
  | inr own ↦ elim (Bool-cases (asks_for_other user q.tutor_id)) [
    | inl asked ↦ inl (own, asked, ground (arith, own, asked))
    | inr mine ↦ inr (ground (arith, own, mine))
  ]
]

-- The list of debtors: a tutor who asks for another's is refused. Otherwise, where `before` never holds both
-- ways and no two students have one id, the list writes nothing, it stands in order of urgency, and a stored
-- student is on it exactly when they are in the caller's scope, at or below the limit, and owe a lesson or
-- have one to come, of their own or of a group.
pub list_outcome :
    (before : Text → Text → Bool) (now : ℤ) (user : User) (q : DebtorQuery) (db : Db) (s : Key)
    (row : StudentRow)
    → ((x y : Text) → before x y ≡ true → before y x ≡ false)
    → IsKeyed db.students
    → lookup s db.students ≡ some row
    → ((is_admin user.role ≡ false)
        × (asks_for_other user q.tutor_id ≡ true)
        × (list before now user q db ≡ (err only_admin_other_tutor, db)))
      ⊎ ((ds : List Debtor) × (list before now user q db ≡ (ok ds, db))
          × (is_ordered before ds ≡ true)
          × (lists s ds ≡ (
              is_at_or_below user (scope_of user q) (get_or q.at_or_below (pos 0)) row
              && (ltb 0 (owed row.paid_lessons_left) || ltb 0 (to_come now s db)))))
unfolding list
list_outcome before now user q db s row one_way keyed found = elim (debtor_scope_lem user q db) [
  | inl (own, asked, refused) ↦ inl (
    own,
    asked,
    >>=-err (debtor_scope user q)
        (λ scope. gets (debtors_in before now user scope (get_or q.at_or_below (pos 0)))) db db
        refused,
  )
  | inr scoped ↦
      let limit = get_or q.at_or_below (pos 0) in
      inr (
        debtors_in before now user (scope_of user q) limit db,
        >>=-ok (debtor_scope user q) (λ scope. gets (debtors_in before now user scope limit)) db db
            scoped,
        is_ordered-debtors_in before one_way now user (scope_of user q) limit db,
        lists-debtors_in before now user (scope_of user q) limit db s row keyed found,
      )
]
