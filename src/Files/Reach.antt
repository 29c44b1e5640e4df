-- ===== src/Files/Reach.antt =====
-- `findReachable` of src/files/files.service.ts: who may see a file.
use tutor_app_back.Access.{Reaches}
use tutor_app_back.Students
use tutor_app_back.Lessons
use tutor_app_back.Files
use tutor_app_back.Files.{through_student, through_lesson}
use tutor_app_back.Files.{find_reachable}
use tutor_app_back.Files.{is_library}
use tutor_app_back.Prelude.{
  ◌≡◌, refl, sym, ap, ◌∙◌, ◌⊎◌, inl, inr, Bool, true, false, not, ◌&&◌, Option, none, some, arith,
  ◌==◌, ==_iff, Option-cases,
}
use tutor_app_back.Prelude.Table.{Key, lookup}
use tutor_app_back.Model.{
  admin, is_admin, tutor_library, User, StudentRow, LessonRow, FileRow, Db, Error, file_not_found,
  ok, Action, pure, ◌>>◌, throw_if, >>=-eq-ok,
}

through_student-ok :
    (user : User) (student : Option Key) (db d : Db)
    → through_student user student db ≡ (ok tt, d)
    → (d ≡ db)
      × ((k : Key) (s : StudentRow)
          → student ≡ some k
          → lookup k db.students ≡ some s
          → Reaches user s.school_id s.tutor_id)
unfolding through_student Students.find_one
through_student-ok user none db d h = (ground arith, λ k s e found. ground arith)
through_student-ok user (some j) db d h = (ground arith, λ k s e found. ground arith)

through_lesson-ok :
    (user : User) (lesson : Option Key) (db d : Db)
    → through_lesson user lesson db ≡ (ok tt, d)
    → (d ≡ db)
      × ((k : Key) (l : LessonRow)
          → lesson ≡ some k
          → lookup k db.lessons ≡ some l
          → Reaches user l.school_id l.tutor_id)
unfolding through_lesson Lessons.find_reachable
through_lesson-ok user none db d h = (ground arith, λ k s e found. ground arith)
through_lesson-ok user (some j) db d h = (ground arith, λ k s e found. ground arith)

guarded_pure-ok :
    {A : Type 0} (b : Bool) (e : Error) (g : A) (db d : Db) {f : A}
    → (throw_if b e >> pure g) db ≡ (ok f, d)
    → (b ≡ false) × (g ≡ f) × (db ≡ d)
guarded_pure-ok true e g db d h = absurd (cc)
guarded_pure-ok false e g db d h = ground arith

-- What a chain of two guards around two checks has passed when it returns.
guards-ok :
    (a b : Bool) (e₁ e₂ : Error) (m₁ m₂ : Action (Unit {0})) (g : FileRow) (db d : Db) {f : FileRow}
    → (throw_if a e₁ >> (m₁ >> (m₂ >> (throw_if b e₂ >> pure g)))) db ≡ (ok f, d)
    → (a ≡ false)
      × ((d₁ : Db) × (m₁ db ≡ (ok tt, d₁)) × (m₂ d₁ ≡ (ok tt, d)))
      × (b ≡ false)
      × (g ≡ f)
guards-ok true b e₁ e₂ m₁ m₂ g db d h = absurd (cc)
guards-ok false b e₁ e₂ m₁ m₂ g db d h =
    let (_, d₁, first, h₁) = >>=-eq-ok m₁ (λ _. m₂ >> (throw_if b e₂ >> pure g)) db h in
    let (_, d₂, second, h₂) = >>=-eq-ok m₂ (λ _. throw_if b e₂ >> pure g) d₁ h₁ in
    let (opened, same, here) = guarded_pure-ok b e₂ g d₂ d h₂ in
    (refl, (d₁, first, second ∙ ap (λ x. (ok tt, x)) here), opened, same)

-- When `findReachable` returns a file, it is stored in the caller's school; the caller reaches the student and the
-- lesson that it names, where those are stored; and material of a personal shelf is the caller's own or
-- the caller is an admin.
pub file-find_reachable_safe :
    (user : User) (id : Key) (db : Db) {f : FileRow} {d : Db}
    → Files.find_reachable user id db ≡ (ok f, d)
    → (d ≡ db)
      × (lookup id db.files ≡ some f)
      × (f.school_id ≡ user.school_id)
      × ((k : Key) (s : StudentRow)
          → f.student_id ≡ some k
          → lookup k db.students ≡ some s
          → Reaches user s.school_id s.tutor_id)
      × ((k : Key) (l : LessonRow)
          → f.lesson_id ≡ some k
          → lookup k db.lessons ≡ some l
          → Reaches user l.school_id l.tutor_id)
      × (f.purpose ≡ tutor_library → (f.uploaded_by_id ≡ user.id) ⊎ (user.role ≡ admin))
unfolding Files.find_reachable
file-find_reachable_safe user id db {f} {d} h = elim (Option-cases (lookup id db.files)) [
  | inl missing ↦ absurd (cc)
  | inr (g, found) ↦
      let (own, (d₁, first, second), shelf, same) =
        guards-ok (not (g.school_id == user.school_id))
          (is_library g.purpose && (not (g.uploaded_by_id == user.id) && not (is_admin user.role)))
          file_not_found file_not_found (through_student user g.student_id)
          (through_lesson user g.lesson_id) g db d (rw found at h) in
      let (here, of_student) = through_student-ok user g.student_id db d₁ first in
      let (here', of_lesson) = through_lesson-ok user g.lesson_id d₁ d second in
      (
        here' ∙ here,
        found ∙ ap (λ x. some x) same,
        sym (ap (λ x. x.school_id) same) ∙ (==_iff g.school_id user.school_id).0 (ground arith),
        λ k s e stored. of_student k s (ap (λ (x : FileRow). x.student_id) same ∙ e) stored,
        λ k l e stored.
            of_lesson k l (ap (λ (x : FileRow). x.lesson_id) same ∙ e)
              (ap (λ (x : Db). lookup k x.lessons) here ∙ stored),
        λ library. ground arith,
      )
]
