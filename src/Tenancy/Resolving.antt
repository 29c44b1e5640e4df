-- ===== src/Tenancy/Resolving.antt =====
-- A subject that `resolve` of src/subjects/subjects.service.ts lets through belongs to the caller's school. And what a chain of
-- reads and writes keeps.
use tutor_app_back.Tenancy.{subject_school}
use tutor_app_back.Tenancy.Rows.{in_school}
use tutor_app_back.Subjects
use tutor_app_back.Subjects.{resolve}
use tutor_app_back.Students
use tutor_app_back.Groups
use tutor_app_back.Prelude.{
  ◌≡◌, refl, sym, ap, ◌∙◌, inl, inr, true, Option, none, some, arith, Option-cases,
}
use tutor_app_back.Prelude.Table.{Key, lookup}
use tutor_app_back.Model.{User, Db, ok, Action, ◌>>=◌, Action-cases, >>=-ok, >>=-err}

-- What holds of the rows after the first part and is kept by the rest holds after both.
pub chain-keeps :
    {A B : Type 0} (P : Db → Type 0) (m : Action A) (f : A → Action B) (db : Db)
    → P (m db).1
    → ((a : A) → m db ≡ (ok a, (m db).1) → P (f a (m db).1).1)
    → P ((m >>= f) db).1
chain-keeps P m f db first rest = elim (Action-cases m db) [
  | inl (e, d, h) ↦ rw (>>=-err m f db d h) (rw (sym (ap (λ p. p.1) h)) first)
  | inr (a, d, h) ↦
      let here : (m db).1 ≡ d = ap (λ p. p.1) h in
      rw (>>=-ok m f db d h) (rw (sym here) (rest a (h ∙ ap (λ x. (ok a, x)) (sym here))))
]

-- The same for a first part that reads.
pub read-keeps :
    {A B : Type 0} (P : Db → Type 0) (m : Action A) (f : A → Action B) (db : Db)
    → (m db).1 ≡ db
    → P db
    → ((a : A) → m db ≡ (ok a, db) → P (f a db).1)
    → P ((m >>= f) db).1
read-keeps P m f db reads before rest =
    chain-keeps P m f db (rw reads before)
      (λ a h. rw reads (rest a (h ∙ ap (λ x. (ok a, x)) reads)))

pub resolve-state :
    (user : User) (asked current : Option Key) (db : Db) → (resolve user asked current db).1 ≡ db
unfolding resolve Subjects.find_one
resolve-state user none current db = refl
resolve-state user (some id) current db = ground arith

pub resolve-inside :
    (user : User) (asked current r : Option Key) (db : Db)
    → resolve user asked current db ≡ (ok r, db)
    → in_school (subject_school db) user.school_id r ≡ true
unfolding resolve Subjects.find_one
resolve-inside user none current r db h = ground (arith, h)
resolve-inside user (some id) current r db h = elim (Option-cases (lookup id db.subjects)) [
  | inl missing ↦ absurd (ground (arith, h, missing))
  | inr (s, found) ↦ ground (arith, h, found)
]

-- A patch resolves, or keeps the subject of the row.
pub student_patch-state :
    (user : User) (asked : Option (Option Key)) (current : Option Key) (db : Db)
    → (Students.resolve_patch user asked current db).1 ≡ db
unfolding Students.resolve_patch
student_patch-state user none current db = refl
student_patch-state user (some asked) current db = resolve-state user asked current db

pub student_patch-inside :
    (user : User) (asked : Option (Option Key)) (current r : Option Key) (db : Db)
    → in_school (subject_school db) user.school_id current ≡ true
    → Students.resolve_patch user asked current db ≡ (ok r, db)
    → in_school (subject_school db) user.school_id r ≡ true
unfolding Students.resolve_patch
student_patch-inside user none current r db before h = ground (arith, h, before)
student_patch-inside user (some asked) current r db before h =
    resolve-inside user asked current r db h

pub group_patch-state :
    (user : User) (asked current : Option Key) (db : Db)
    → (Groups.resolve_patch user asked current db).1 ≡ db
unfolding Groups.resolve_patch
group_patch-state user none current db = refl
group_patch-state user (some id) current db = resolve-state user (some id) current db

pub group_patch-inside :
    (user : User) (asked current r : Option Key) (db : Db)
    → in_school (subject_school db) user.school_id current ≡ true
    → Groups.resolve_patch user asked current db ≡ (ok r, db)
    → in_school (subject_school db) user.school_id r ≡ true
unfolding Groups.resolve_patch
group_patch-inside user none current r db before h = ground (arith, h, before)
group_patch-inside user (some id) current r db before h =
    resolve-inside user (some id) current r db h
