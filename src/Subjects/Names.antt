-- ===== src/Subjects/Names.antt =====
-- One name, one subject: no two subjects of a school of src/subjects/subjects.service.ts have one name, whatever the search
-- for a like name finds.
use native.Mathlib.Decide.{ℕ_discrete}
use mathlib.Core.Path.{subst}
use tutor_app_back.Subjects.{has_name, find_by_name, create}
use tutor_app_back.Subjects.{is_taken, clash_error, clash_of, rename}
use tutor_app_back.Prelude.{
  ◌≡◌, refl, sym, ap, ◌∙◌, ◌≢◌, ◌⊎◌, inl, inr, Bool, true, false, not, ◌&&◌, none, some, [], ◌∷◌,
  arith, ◌==◌, Bool-cases, Option-cases, eq_of_some,
}
use tutor_app_back.Prelude.Table.{
  Key, Table, lookup, modify, append, lookup-modify, lookup-append, KeysBelow, lookup_fresh,
  find_first,
}
use tutor_app_back.Model.{User, SubjectRow, Db, Error, unique_violation, ok, err}
use tutor_app_back.Model.Text.{Text, trim, text_eq, text_eq_refl}

-- Two different subjects of one school never have one name.
abbrev pub HasDistinctNames : Table SubjectRow → Type 0
HasDistinctNames t =
    (j k : Key) (a b : SubjectRow)
    → j ≢ k
    → lookup j t ≡ some a
    → lookup k t ≡ some b
    → a.school_id ≡ b.school_id
    → a.name ≢ b.name

module _ {ℓ} {V : Type ℓ} (p : Key → V → Bool) where
  pub find_first-eq-none :
      (t : Table V) (k : Key) (v : V) → find_first p t ≡ none → lookup k t ≡ some v → p k v ≡ false
  find_first-eq-none [] k v h e = cc
  find_first-eq-none ((j, w) ∷ t) k v h e = ground (arith, find_first-eq-none t k v)

-- A row that has a name of its own in its school may be stored.
abbrev IsNewName : Key → SubjectRow → Table SubjectRow → Type 0
IsNewName n s t =
    (k : Key) (a : SubjectRow)
    → k ≢ n
    → lookup k t ≡ some a
    → a.school_id ≡ s.school_id
    → a.name ≢ s.name

-- Two tables that agree off one key, where the new row has a new name.
HasDistinctNames-change :
    (n : Key) (s : SubjectRow) (t t' : Table SubjectRow)
    → HasDistinctNames t
    → IsNewName n s t
    → lookup n t' ≡ some s
    → ((j : Key) → j ≢ n → lookup j t' ≡ lookup j t)
    → HasDistinctNames t'
HasDistinctNames-change n s t t' distinct fresh here there j k a b ne la lb school =
    elim (ℕ_discrete j n) [
      | yes jn ↦
          let sa : a ≡ s = eq_of_some (sym la ∙ ap (λ i. lookup i t') jn ∙ here) in
          let kn : k ≢ n = λ e. ne (jn ∙ sym e) in
          let lb' : lookup k t ≡ some b = sym (there k kn) ∙ lb in
          let schools = sym school ∙ ap (λ (r : SubjectRow). r.school_id) sa in
          λ same. fresh k b kn lb' schools (sym same ∙ ap (λ (r : SubjectRow). r.name) sa)
      | no jn ↦ elim (ℕ_discrete k n) [
        | yes kn ↦
            let sb : b ≡ s = eq_of_some (sym lb ∙ ap (λ i. lookup i t') kn ∙ here) in
            λ same.
              fresh j a jn (sym (there j jn) ∙ la)
                (school ∙ ap (λ (r : SubjectRow). r.school_id) sb)
                (same ∙ ap (λ (r : SubjectRow). r.name) sb)
        | no kn ↦ distinct j k a b ne (sym (there j jn) ∙ la) (sym (there k kn) ∙ lb) school
      ]
    ]

-- What the index lets through has a new name.
is_taken-IsNewName :
    (n : Key) (s : SubjectRow) (t : Table SubjectRow)
    → is_taken s.school_id s.name n t ≡ false
    → IsNewName n s t
is_taken-IsNewName n s t open_name k a ne found school same =
    let row : SubjectRow → Bool = λ r. r.school_id == s.school_id && text_eq r.name s.name in
    let missed : find_first (λ j r. not (j == n) && row r) t ≡ none =
      elim (Option-cases (find_first (λ j r. not (j == n) && row r) t)) [
        | inl e ↦ e
        | inr (x, e) ↦ absurd (ground (arith, open_name, e))
      ] in
    let hit : row a ≡ true =
      ground (arith, school, ap (λ x. text_eq x s.name) same, text_eq_refl s.name) in
    absurd (
      ground (arith, find_first-eq-none (λ j r. not (j == n) && row r) t k a missed found, hit, ne))

module _ (same_name : Text → Text → Bool) where
  new_subject : User → Text → SubjectRow
  new_subject user typed = record {
    name = trim typed;
    hidden_at = none;
    school_id = user.school_id;
  }

  -- What `create` leaves of the table: the table itself, with a refusal, or one more row, where the search found
  -- nothing and the index lets the name through.
  create_subjects :
      (user : User) (typed : Text) (db : Db)
      → (((create same_name user typed db).1.subjects ≡ db.subjects)
          × ((e : Error) × ((create same_name user typed db).0 ≡ err e)))
        ⊎ ((find_by_name same_name user.school_id (trim typed) db.subjects ≡ none)
            × (is_taken user.school_id (trim typed) db.next_id db.subjects ≡ false)
            × ((create same_name user typed db).1.subjects
                ≡ append db.next_id (new_subject user typed) db.subjects))
  unfolding create new_subject
  create_subjects user typed db =
      elim (Option-cases (find_by_name same_name user.school_id (trim typed) db.subjects)) [
        | inr ((k, c), found) ↦
            inl (rw (found, create) refl, (clash_error c, rw (found, create) refl))
        | inl missed ↦
            elim (Bool-cases (is_taken user.school_id (trim typed) db.next_id db.subjects)) [
              | inl taken ↦
                  inl (
                    ground (arith, missed, taken),
                    (unique_violation, ground (arith, missed, taken)),
                  )
              | inr open_name ↦ inr (missed, open_name, ground (arith, missed, open_name))
            ]
      ]

  renamed : Text → SubjectRow → SubjectRow
  renamed typed s = record s { name = trim typed }

  -- What `rename` leaves of the table: the table itself, or the table with the new name.
  rename_subjects :
      (user : User) (id : Key) (typed : Text) (db : Db)
      → ((rename same_name user id typed db).1.subjects ≡ db.subjects)
        ⊎ ((s : SubjectRow) × (lookup id db.subjects ≡ some s)
            × (is_taken s.school_id (trim typed) id db.subjects ≡ false)
            × ((rename same_name user id typed db).1.subjects
                ≡ modify id (renamed typed) db.subjects))
  unfolding rename renamed
  rename_subjects user id typed db = elim (Option-cases (lookup id db.subjects)) [
    | inl missing ↦ inl (ground arith)
    | inr (s, found) ↦ elim (Bool-cases (s.school_id == user.school_id)) [
      | inr foreign ↦ inl (ground arith)
      | inl own ↦
          elim (Option-cases
            (clash_of id (find_by_name same_name user.school_id (trim typed) db.subjects))) [
              | inr (c, clash) ↦ inl (ground arith)
              | inl clear ↦ elim (Bool-cases (is_taken s.school_id (trim typed) id db.subjects)) [
                | inl taken ↦ inl (ground arith)
                | inr open_name ↦ inr (s, found, open_name, ground arith)
              ]
            ]
    ]
  ]

  create-HasDistinctNames :
      (user : User) (typed : Text) (db : Db)
      → KeysBelow db.next_id db.subjects
      → HasDistinctNames db.subjects
      → HasDistinctNames (create same_name user typed db).1.subjects
  unfolding new_subject
  create-HasDistinctNames user typed db below distinct = elim (create_subjects user typed db) [
    | inl (same, _) ↦ subst HasDistinctNames (sym same) distinct
    | inr (missed, open_name, added) ↦
        let s = new_subject user typed in
        let fresh = lookup_fresh db.next_id db.subjects below in
        subst HasDistinctNames (sym added) (
          HasDistinctNames-change db.next_id s db.subjects (append db.next_id s db.subjects)
            distinct (is_taken-IsNewName db.next_id s db.subjects open_name)
            (ground (arith, lookup-append db.next_id db.next_id s db.subjects))
            (λ j ne. ground (arith, lookup-append j db.next_id s db.subjects)))
  ]

  rename-HasDistinctNames :
      (user : User) (id : Key) (typed : Text) (db : Db)
      → HasDistinctNames db.subjects
      → HasDistinctNames (rename same_name user id typed db).1.subjects
  unfolding renamed
  rename-HasDistinctNames user id typed db distinct = elim (rename_subjects user id typed db) [
    | inl same ↦ subst HasDistinctNames (sym same) distinct
    | inr (s, found, open_name, written) ↦ subst HasDistinctNames (sym written) (
        HasDistinctNames-change id (renamed typed s) db.subjects
          (modify id (renamed typed) db.subjects) distinct
          (is_taken-IsNewName id (renamed typed s) db.subjects open_name)
          (ground (arith, found, lookup-modify id id (renamed typed) db.subjects))
          (λ j ne. ground (arith, lookup-modify j id (renamed typed) db.subjects)))
  ]

  -- A subject that was created was not found by the search among the subjects of its school.
  create-finds_none :
      (user : User) (typed : Text) (db : Db) (s : SubjectRow) (k : Key) (a : SubjectRow)
      → (create same_name user typed db).0 ≡ ok s
      → lookup k db.subjects ≡ some a
      → a.school_id ≡ user.school_id
      → same_name a.name (trim typed) ≡ false
  unfolding find_by_name
  create-finds_none user typed db s k a made found ours = elim (create_subjects user typed db) [
    | inl (_, (e, failed)) ↦ absurd (ground (arith, made, failed))
    | inr (missed, _, _) ↦ ground (
      arith,
      ours,
      find_first-eq-none (has_name same_name user.school_id (trim typed)) db.subjects k a missed
          found,
    )
  ]

  -- Whatever the database's search calls a like name, creating and renaming keep the names of a school's subjects
  -- distinct, where they were so and new ids are fresh; and a subject that was created is like no subject that its school
  -- had, which the hidden ones are among.
  pub names_stay_distinct :
      (user : User) (id : Key) (typed : Text) (db : Db)
      → KeysBelow db.next_id db.subjects
      → HasDistinctNames db.subjects
      → HasDistinctNames (create same_name user typed db).1.subjects
        × HasDistinctNames (rename same_name user id typed db).1.subjects
        × ((s : SubjectRow) (k : Key) (a : SubjectRow)
            → (create same_name user typed db).0 ≡ ok s
            → lookup k db.subjects ≡ some a
            → a.school_id ≡ user.school_id
            → same_name a.name (trim typed) ≡ false)
  names_stay_distinct user id typed db below distinct = (
    create-HasDistinctNames user typed db below distinct,
    rename-HasDistinctNames user id typed db distinct,
    create-finds_none user typed db,
  )
