-- ===== src/Model/Monad.antt =====
-- A service method: it reads and writes the database, and returns or throws. The database comes back
-- after a throw too, since what was committed stays committed; a transaction takes it back.
use tutor_app_back.Model.Rows.{Db}
use tutor_app_back.Prelude.{
  ℕ, ◌≡◌, refl, sym, ap, ◌∙◌, ◌⊎◌, inl, inr, Bool, true, false, Option, none, some,
}

-- One constructor for each exception that the services throw.
pub data Error : Type 0 where
  student_not_found not_your_student : Error
  lesson_not_found group_not_found subject_not_found : Error
  subject_exists subject_hidden subject_in_use subject_not_offered : Error
  student_not_in_lesson one_entry_per_student must_name_student : Error
  grade_not_found only_author_can_change : Error
  percentage_too_large : Error
  grades_out_of : ℕ → Error
  one_student_or_group : Error
  window_ends_before_start window_too_long too_many_calendars : Error
  only_admin_other_tutor : Error
  note_not_found only_author_can_remove : Error
  member_not_found admins_hold_all : Error
  email_taken slug_taken school_not_found : Error
  invitation_not_found invitation_invalid invitation_used : Error
  file_not_found only_uploader_can_remove : Error
  file_empty file_too_large quota_exceeded unsupported_type : Error
  storage_failed : Error
  not_connected cannot_connect connecting_unset connection_expired no_lasting_access : Error
  config_invalid capability_missing : Error
  -- an `Error` that no filter turns into a status of its own
  exchange_failed invalid_date : Error
  -- Prisma's P2002 and P2025, from the database itself
  unique_violation record_missing : Error

-- The HTTP status of the answer, `prisma-exception.filter.ts` included.
pub http_status : Error → ℕ
http_status student_not_found = 404
http_status lesson_not_found = 404
http_status group_not_found = 404
http_status subject_not_found = 404
http_status grade_not_found = 404
http_status note_not_found = 404
http_status member_not_found = 404
http_status school_not_found = 404
http_status invitation_not_found = 404
http_status invitation_invalid = 404
http_status file_not_found = 404
http_status record_missing = 404
http_status not_connected = 404
http_status not_your_student = 403
http_status capability_missing = 403
http_status only_author_can_change = 403
http_status only_author_can_remove = 403
http_status only_admin_other_tutor = 403
http_status admins_hold_all = 403
http_status only_uploader_can_remove = 403
http_status subject_exists = 409
http_status subject_hidden = 409
http_status subject_in_use = 409
http_status email_taken = 409
http_status slug_taken = 409
http_status unique_violation = 409
http_status file_too_large = 413
http_status quota_exceeded = 413
http_status unsupported_type = 415
http_status storage_failed = 500
http_status exchange_failed = 500
http_status invalid_date = 500
http_status _ = 400

pub data Result {ℓ} (A : Type ℓ) : Type ℓ where
  ok : A → Result A
  err : Error → Result A

abbrev pub Action : Type 0 → Type 0
Action A = Db → Result A × Db

module _ {A : Type 0} where
  abbrev pub pure : A → Action A
  pure a db = (ok a, db)

  abbrev pub throw : Error → Action A
  throw e db = (err e, db)

  abbrev pub gets : (Db → A) → Action A
  gets f db = (ok (f db), db)

  -- `if (!row) throw e`
  abbrev pub or_throw : Option A → Error → Action A
  or_throw none e = throw e
  or_throw (some a) e = pure a

  -- `$transaction`: a throw inside takes every write back.
  abbrev pub transaction : Action A → Action A
  transaction m db = let (r, db') = m db in elim r [ ok a ↦ (ok a, db') | err e ↦ (err e, db) ]

infixl 5 ◌>>=◌ ◌>>◌
abbrev pub ◌>>=◌ : {A B : Type 0} → Action A → (A → Action B) → Action B
◌>>=◌ m f db = let (r, db') = m db in elim r [ ok a ↦ f a db' | err e ↦ (err e, db') ]

abbrev pub ◌>>◌ : {A B : Type 0} → Action A → Action B → Action B
m >> k = m >>= λ _. k

abbrev pub throw_if : Bool → Error → Action (Unit {0})
throw_if true e = throw e
throw_if false e = pure tt

abbrev pub write : (Db → Db) → Action (Unit {0})
write f db = (ok tt, f db)

bind_pair-eq-ok :
    {A B : Type 0} (p : Result A × Db) (f : A → Action B) {b : B} {db' : Db}
    → (let (r, d) = p in elim r [ ok a ↦ f a d | err e ↦ (err e, d) ]) ≡ (ok b, db')
    → (a : A) × (d : Db) × (p ≡ (ok a, d)) × (f a d ≡ (ok b, db'))
bind_pair-eq-ok (ok a, d) f h = (a, d, refl, h)
bind_pair-eq-ok (err e, d) f h = cc

-- Inversion of a method that returned: its first part returned, and so did the rest after it.
pub >>=-eq-ok :
    {A B : Type 0} (m : Action A) (f : A → Action B) (db : Db) {b : B} {db' : Db}
    → (m >>= f) db ≡ (ok b, db')
    → (a : A) × (d : Db) × (m db ≡ (ok a, d)) × (f a d ≡ (ok b, db'))
>>=-eq-ok m f db h = bind_pair-eq-ok (m db) f h

pair-cases :
    {A : Type 0} (p : Result A × Db)
    → ((e : Error) × (d : Db) × (p ≡ (err e, d))) ⊎ ((a : A) × (d : Db) × (p ≡ (ok a, d)))
pair-cases (err e, d) = inl (e, d, refl)
pair-cases (ok a, d) = inr (a, d, refl)

-- A method throws or returns.
pub Action-cases :
    {A : Type 0} (m : Action A) (db : Db)
    → ((e : Error) × (d : Db) × (m db ≡ (err e, d))) ⊎ ((a : A) × (d : Db) × (m db ≡ (ok a, d)))
Action-cases m db = pair-cases (m db)

-- A first part that returned hands over to the rest.
pub >>=-ok :
    {A B : Type 0} (m : Action A) (f : A → Action B) {a : A} (db d : Db)
    → m db ≡ (ok a, d)
    → (m >>= f) db ≡ f a d
>>=-ok {A} {B} m f db d h =
    let run : Result A × Db → Result B × Db =
      λ p. elim (p.0) [ ok a ↦ f a (p.1) | err e ↦ (err e, p.1) ] in
    ap run h

-- A method that writes nothing and returned, returned with the database it was given.
pub returned_here :
    {A : Type 0} {p : Result A × Db} {a : A} {db d : Db} → p.1 ≡ db → p ≡ (ok a, d) → p ≡ (ok a, db)
returned_here {a} {d} here e = e ∙ ap (λ x. (ok a, x)) (sym (ap (λ q. q.1) e) ∙ here)

-- A first part that threw ends the whole.
pub >>=-err :
    {A B : Type 0} (m : Action A) (f : A → Action B) {e : Error} (db d : Db)
    → m db ≡ (err e, d)
    → (m >>= f) db ≡ (err e, d)
>>=-err {A} {B} m f db d h =
    let run : Result A × Db → Result B × Db =
      λ p. elim (p.0) [ ok a ↦ f a (p.1) | err e ↦ (err e, p.1) ] in
    ap run h

-- A method that writes nothing and threw, threw with the database it was given.
pub threw_here :
    {A : Type 0} {p : Result A × Db} {e : Error} {db d : Db}
    → p.1 ≡ db
    → p ≡ (err e, d)
    → p ≡ (err e, db)
threw_here {e} here h = h ∙ ap (λ x. (err e, x)) (sym (ap (λ q. q.1) h) ∙ here)
