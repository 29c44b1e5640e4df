-- ===== src/Subjects.antt =====
-- src/subjects/subjects.service.ts: what the school teaches. `same_name` is the comparison that the
-- database makes for `mode: 'insensitive'`; it is code of PostgreSQL, so a parameter.
pub mod Hiding
pub mod Names
use tutor_app_back.Prelude.{
  ℕ, ◌+◌, Bool, true, false, not, ◌&&◌, ◌||◌, Option, none, some, List, [], ◌∷◌, ◌==◌,
  if◌then◌else◌, is_some,
}
use tutor_app_back.Prelude.Int.{ℤ, ltb_ℤ, leb_ℤ}
use tutor_app_back.Prelude.Table.{Key, Table, lookup, modify, append, find_first, find_many, count}
use tutor_app_back.Model.{
  LessonStatus, scheduled, completed, cancelled, User, SubjectRow, StudentRow, GroupRow, LessonRow,
  Db, Error, subject_not_found, subject_exists, subject_hidden, subject_in_use, subject_not_offered,
  unique_violation, ok, Action, pure, throw, gets, ◌>>=◌, ◌>>◌, throw_if, write, is_key,
}
use tutor_app_back.Model.Text.{Text, trim, text_eq}

abbrev pub is_cancelled : LessonStatus → Bool
is_cancelled cancelled = true
is_cancelled scheduled = false
is_cancelled completed = false

pub record SubjectUsage : Type 0 where
  pub subject : SubjectRow
  pub students : Table StudentRow
  pub groups : Table GroupRow
  pub upcoming_lessons : ℕ
  pub past_lessons : ℕ
  pub can_hide : Bool

abbrev is_empty {ℓ} : {A : Type ℓ} → List A → Bool
is_empty [] = true
is_empty (x ∷ xs) = false

pub list : User → Bool → Action (Table SubjectRow)
list user include_hidden = gets (λ db.
    find_many (λ s. s.school_id == user.school_id && (include_hidden || not (is_some s.hidden_at)))
      db.subjects)

unfoldable pub find_one : User → Key → Action SubjectRow
find_one user id db = elim (lookup id db.subjects) [
  | none ↦ throw subject_not_found db
  | some s ↦ if s.school_id == user.school_id then pure s db else throw subject_not_found db
]

unfoldable pub resolve : User → Option Key → Option Key → Action (Option Key)
unfolding find_one
resolve user none current = pure none
resolve user (some id) current = do
  subject ← find_one user id
  throw_if (is_some subject.hidden_at && not (is_key id current)) subject_not_offered
  pure (some id)

-- The filters of the two counts in `usage`.
abbrev pub is_upcoming : ℤ → Key → LessonRow → Bool
is_upcoming now id l =
    is_key id l.subject_id && (leb_ℤ now l.starts_at && not (is_cancelled l.status))

abbrev pub is_past : ℤ → Key → LessonRow → Bool
is_past now id l = is_key id l.subject_id && (ltb_ℤ l.starts_at now || is_cancelled l.status)

abbrev usage_of : ℤ → Key → SubjectRow → Db → SubjectUsage
usage_of now id subject db =
    let students = find_many (λ s. is_key id s.subject_id) db.students in
    let groups = find_many (λ g. is_key id g.subject_id) db.groups in
    let upcoming = count (is_upcoming now id) db.lessons in
    record {
      subject = subject;
      students = students;
      groups = groups;
      upcoming_lessons = upcoming;
      past_lessons = count (is_past now id) db.lessons;
      can_hide = is_empty students && (is_empty groups && upcoming == 0);
    }

unfoldable pub usage : ℤ → User → Key → Action SubjectUsage
unfolding find_one
usage now user id = do subject ← find_one user id; gets (usage_of now id subject)

-- The write of `hiddenAt`, which `hide` and `restore` share.
abbrev pub set_hidden : Key → Option ℤ → Db → Db
set_hidden id at db = record db {
  subjects = modify id (λ s. record s { hidden_at = at }) db.subjects;
}

unfoldable pub hide : ℤ → User → Key → Action SubjectRow
unfolding usage
hide now user id = do
  used ← usage now user id
  throw_if (not used.can_hide) subject_in_use
  if is_some used.subject.hidden_at
      then pure used.subject
      else (write (set_hidden id (some now))
          >> pure (record (used.subject) { hidden_at = some now }))

unfoldable pub restore : User → Key → Action SubjectRow
unfolding find_one
restore user id = do
  subject ← find_one user id
  write (set_hidden id none)
  pure (record subject { hidden_at = none })

module _ (same_name : Text → Text → Bool) where
  abbrev pub has_name : Key → Text → Key → SubjectRow → Bool
  has_name school name id s = s.school_id == school && same_name s.name name

  pub find_by_name : Key → Text → Table SubjectRow → Option (Key × SubjectRow)
  find_by_name school name t = find_first (has_name school name) t

-- The unique index on school and name, over all rows but the one being written.
abbrev pub is_taken : Key → Text → Key → Table SubjectRow → Bool
is_taken school name id t =
    is_some (find_first (λ j s. not (j == id) && (s.school_id == school && text_eq s.name name)) t)

-- The exception of a clash: a hidden subject has a code of its own.
abbrev pub clash_error : SubjectRow → Error
clash_error s = if is_some s.hidden_at then subject_hidden else subject_exists

-- `subject.create` and the index behind it
abbrev insert_subject : SubjectRow → Action SubjectRow
insert_subject s db =
    if is_taken s.school_id s.name db.next_id db.subjects
    then throw unique_violation db
    else (ok s, record db { subjects = append db.next_id s db.subjects; next_id = db.next_id + 1 })

-- `subject.update` of the name, and the index behind it
abbrev write_name : Key → Text → SubjectRow → Action SubjectRow
write_name id name s db =
    if is_taken s.school_id name id db.subjects then throw unique_violation db else (
      ok (record s { name = name }),
      record db { subjects = modify id (λ r. record r { name = name }) db.subjects },
    )

-- A clash with the subject itself is no clash.
abbrev pub clash_of : Key → Option (Key × SubjectRow) → Option SubjectRow
clash_of id none = none
clash_of id (some (k, s)) = if k == id then none else some s

module _ (same_name : Text → Text → Bool) where
  unfoldable pub create : User → Text → Action SubjectRow
  unfolding find_by_name
  create user typed db =
      let name = trim typed in
      elim (find_by_name same_name user.school_id name db.subjects) [
        | some (k, s) ↦ throw (clash_error s) db
        | none ↦
            insert_subject (record { name = name; hidden_at = none; school_id = user.school_id }) db
      ]

  unfoldable pub rename : User → Key → Text → Action SubjectRow
  unfolding find_one find_by_name
  rename user id typed = do
    subject ← find_one user id
    let name = trim typed
    found ← gets (λ db. clash_of id (find_by_name same_name user.school_id name db.subjects))
    elim found [ some s ↦ throw (clash_error s) | none ↦ write_name id name subject ]
