-- ===== src/Subjects/Hiding.antt =====
-- Retiring a subject: what blocks it, what it changes, and what a retired subject is still good for.
use tutor_app_back.Subjects.{
  resolve, set_hidden, SubjectUsage, is_upcoming, is_past, usage, hide, is_empty, usage_of,
}
use mathlib.Core.Bool.{false≢true, and-eq-true_iff}
use tutor_app_back.Prelude.{
  ◌+◌, ◌≡◌, refl, sym, ap, ◌∙◌, ◌≢◌, ◌↔◌, ◌⊎◌, inl, inr, Bool, true, false, Option, some, [], ◌∷◌,
  arith, ◌==◌, if◌then◌else◌, ==_iff, Bool-cases, Option-cases, is_some, All,
}
use tutor_app_back.Prelude.Int.{ℤ}
use tutor_app_back.Prelude.Table.{Key, Table, lookup, lookup-modify, find_many, count}
use tutor_app_back.Model.{
  User, SubjectRow, LessonRow, Db, subject_not_found, subject_in_use, subject_not_offered, Result,
  ok, err, is_key,
}

-- The lessons that name the subject, taught or not.
abbrev pub names_subject : Key → LessonRow → Bool
names_subject id l = is_key id l.subject_id

count_split :
    (now : ℤ) (id : Key) (t : Table LessonRow)
    → count (is_upcoming now id) t + count (is_past now id) t ≡ count (names_subject id) t
count_split now id [] = omega arith
count_split now id ((k, l) ∷ t) = ground (arith, count_split now id t)

-- When `usage` answers, its two lesson counts add up to the lessons that name the subject: none is
-- counted twice and none is left out.
pub usage_counts_every_lesson :
    (now : ℤ) (user : User) (id : Key) (db : Db) {u : SubjectUsage} {db' : Db}
    → usage now user id db ≡ (ok u, db')
    → u.upcoming_lessons + u.past_lessons ≡ count (names_subject id) db.lessons
unfolding usage
usage_counts_every_lesson now user id db h = ground (arith, count_split now id db.lessons)

-- Nothing current points at the subject: no student, no group, no lesson still to come.
abbrev pub IsFree : ℤ → Key → Db → Type 0
IsFree now id db =
    All (λ e. is_key id (e.1).subject_id ≡ false) db.students
    × All (λ e. is_key id (e.1).subject_id ≡ false) db.groups
    × All (λ e. is_upcoming now id (e.1) ≡ false) db.lessons

module _ {ℓ} {V : Type ℓ} (p : V → Bool) where
  is_empty-find_many :
      (t : Table V) → is_empty (find_many p t) ≡ true → All (λ e. p (e.1) ≡ false) t
  is_empty-find_many [] h = tt
  is_empty-find_many ((k, v) ∷ t) h = elim (Bool-cases (p v)) [
    | inl e ↦ absurd (false≢true (rw e at h))
    | inr e ↦ (e, is_empty-find_many t (rw e at h))
  ]

  find_many_none : (t : Table V) → All (λ e. p (e.1) ≡ false) t → is_empty (find_many p t) ≡ true
  find_many_none [] h = refl
  find_many_none ((k, v) ∷ t) (e, h) = rw e (find_many_none t h)

  count_zero : (t : Table V) → count p t ≡ 0 → All (λ e. p (e.1) ≡ false) t
  count_zero [] h = tt
  count_zero ((k, v) ∷ t) h = elim (Bool-cases (p v)) [
    | inl e ↦ absurd (omega (arith, rw e at h))
    | inr e ↦ (e, count_zero t (rw e at h))
  ]

  count_none : (t : Table V) → All (λ e. p (e.1) ≡ false) t → count p t ≡ 0
  count_none [] h = refl
  count_none ((k, v) ∷ t) (e, h) = rw e (count_none t h)

-- What `hide` may answer, and what it leaves behind.
abbrev pub HideOutcome : ℤ → User → Key → Db → Result SubjectRow × Db → Type 0
HideOutcome now user id db (ok s, db') =
    IsFree now id db
    × (s.school_id ≡ user.school_id)
    × (is_some s.hidden_at ≡ true)
    × (lookup id db'.subjects ≡ some s)
    × ((j : Key) → j ≢ id → lookup j db'.subjects ≡ lookup j db.subjects)
HideOutcome now user id db (err e, db') =
    (db' ≡ db) × ((e ≡ subject_not_found) ⊎ ((e ≡ subject_in_use) × ¬ (IsFree now id db)))

can_hide_iff :
    (now : ℤ) (id : Key) (s : SubjectRow) (db : Db)
    → ((usage_of now id s db).can_hide ≡ true) ↔ IsFree now id db
can_hide_iff now id s db = (
  λ h.
      let (no_students, rest) = (and-eq-true_iff _ _).0 h in
      let (no_groups, none_upcoming) = (and-eq-true_iff _ _).0 rest in
      (
        is_empty-find_many _ db.students no_students,
        is_empty-find_many _ db.groups no_groups,
        count_zero _ db.lessons ((==_iff _ 0).0 none_upcoming),
      ),
  λ (no_students, no_groups, none_upcoming). (and-eq-true_iff _ _).1 (
    find_many_none _ db.students no_students,
    (and-eq-true_iff _ _).1 (
      find_many_none _ db.groups no_groups,
      (==_iff _ 0).1 (count_none _ db.lessons none_upcoming),
    ),
  ),
)

module _ (now : ℤ) (user : User) (id : Key) (db : Db) where
  hide_missing :
      is_some (lookup id db.subjects) ≡ false → hide now user id db ≡ (err subject_not_found, db)
  unfolding hide
  hide_missing h = ground arith

  module _ (s : SubjectRow) (found : lookup id db.subjects ≡ some s) where
    hide_foreign :
        (s.school_id == user.school_id) ≡ false → hide now user id db ≡ (err subject_not_found, db)
    unfolding hide
    hide_foreign h = ground arith

    module _ (own : (s.school_id == user.school_id) ≡ true) where
      hide_used :
          (usage_of now id s db).can_hide ≡ false → hide now user id db ≡ (err subject_in_use, db)
      unfolding hide
      hide_used h = ground arith

      hide_again :
          (usage_of now id s db).can_hide ≡ true
          → is_some s.hidden_at ≡ true
          → hide now user id db ≡ (ok s, db)
      unfolding hide
      hide_again h k = ground arith

      hide_shown :
          (usage_of now id s db).can_hide ≡ true
          → is_some s.hidden_at ≡ false
          → hide now user id db
            ≡ (ok (record s { hidden_at = some now }), set_hidden id (some now) db)
      unfolding hide
      hide_shown h k = ground arith

-- Whatever `hide` answers: on success nothing current pointed at the subject, the caller's school
-- owns it, it is stored as hidden and every other subject is as before; a refusal writes nothing, and
-- is either not-found or in-use, the latter only while something current points at it.
pub hide_outcome :
    (now : ℤ) (user : User) (id : Key) (db : Db) → HideOutcome now user id db (hide now user id db)
hide_outcome now user id db = elim (Option-cases (lookup id db.subjects)) [
  | inl missing ↦ rw (hide_missing now user id db (ap is_some missing)) (refl, inl refl)
  | inr (s, found) ↦ elim (Bool-cases (s.school_id == user.school_id)) [
    | inr foreign ↦ rw (hide_foreign now user id db s found foreign) (refl, inl refl)
    | inl own ↦ elim (Bool-cases ((usage_of now id s db).can_hide)) [
      | inr used ↦
          rw (hide_used now user id db s found own used)
            (refl, inr (refl, λ free. false≢true (sym used ∙ (can_hide_iff now id s db).1 free)))
      | inl free ↦ elim (Bool-cases (is_some s.hidden_at)) [
        | inl hidden ↦
            rw (hide_again now user id db s found own free hidden)
              ((can_hide_iff now id s db).0 free, ground arith, hidden, found, λ j ne. refl)
        | inr shown ↦ rw (hide_shown now user id db s found own free shown) (
          (can_hide_iff now id s db).0 free,
          ground arith,
          refl,
          ground (arith, lookup-modify id id (λ r. record r { hidden_at = some now }) db.subjects),
          λ j ne.
              ground
                (arith, lookup-modify j id (λ r. record r { hidden_at = some now }) db.subjects),
        )
      ]
    ]
  ]
]

resolve_hidden :
    (user : User) (id : Key) (current : Option Key) (db : Db) (s : SubjectRow)
    → lookup id db.subjects ≡ some s
    → s.school_id ≡ user.school_id
    → is_some s.hidden_at ≡ true
    → resolve user (some id) current db
      ≡ (if is_key id current then ok (some id) else err subject_not_offered, db)
unfolding resolve
resolve_hidden user id current db s found own hidden = ground arith

-- After a subject is hidden, `resolve` refuses it to everybody of the school for a record that does not
-- already point at it, and still accepts it for one that does.
pub hide-then-resolve :
    (now : ℤ) (user anyone : User) (id : Key) (current : Option Key) (db : Db) {s : SubjectRow}
    {db' : Db}
    → anyone.school_id ≡ user.school_id
    → hide now user id db ≡ (ok s, db')
    → resolve anyone (some id) current db'
      ≡ (if is_key id current then ok (some id) else err subject_not_offered, db')
hide-then-resolve now user anyone id current db {s} {db'} same h =
    let outcome : HideOutcome now user id db (ok s, db') = rw h at (hide_outcome now user id db) in
    let (_, own, hidden, stored, _) = outcome in
    resolve_hidden anyone id current db' s stored (rw same own) hidden
