-- ===== src/Tenancy/Writes.antt =====
-- The writes of the services on subjects, students, groups, memberships and lessons keep the schools apart.
use tutor_app_back.Tenancy.{
  IsSeparate, subject_school, student_school, group_school, is_student_inside, is_group_inside,
  is_lesson_inside, is_member_inside,
}
use tutor_app_back.Tenancy.Rows.{
  school_of, all_rows, Extends, in_school-Extends, same_school-Extends, all_rows_mono,
  school_of-modify, school_of-append,
}
use tutor_app_back.Members.Rows.{KeysBelow-mono, append-KeysBelow, modify-KeysBelow}
use tutor_app_back.Prelude.{
  ◌+◌, ◌≡◌, refl, ◌∙◌, inl, inr, Bool, true, Option, List, [], ◌∷◌, arith, Bool-cases, filter, all,
}
use tutor_app_back.Prelude.Table.{Key, Table, modify, append, KeysBelow, lookup_fresh}
use tutor_app_back.Model.{SubjectRow, LessonRow, Db}

all_mono :
    {A : Type 0} (p q : A → Bool) (xs : List A)
    → ((x : A) → p x ≡ true → q x ≡ true)
    → all p xs ≡ true
    → all q xs ≡ true
all_mono p q [] imp h = refl
all_mono p q (x ∷ xs) imp h = ground (arith, h, imp x, all_mono p q xs imp)

pub all-filter :
    {A : Type 0} (p q keep : A → Bool) (xs : List A)
    → ((x : A) → keep x ≡ true → p x ≡ true → q x ≡ true)
    → all p xs ≡ true
    → all q (filter keep xs) ≡ true
all-filter p q keep [] imp h = refl
all-filter p q keep (x ∷ xs) imp h = elim (Bool-cases (keep x)) [
  | inl kept ↦ ground (arith, h, kept, imp x, all-filter p q keep xs imp)
  | inr out ↦ ground (arith, h, out, all-filter p q keep xs imp)
]

-- Rows whose references are right by the schools of before are right by more rows.
module _ (db d : Db) (subjects : Extends (subject_school db) (subject_school d))
    (students : Extends (student_school db) (student_school d))
    (groups : Extends (group_school db) (group_school d)) where
  abbrev before :
      {A : Type 0} → ((Key → Option Key) → (Key → Option Key) → (Key → Option Key) → A) → A
  before f = f (subject_school db) (student_school db) (group_school db)

  abbrev after :
      {A : Type 0} → ((Key → Option Key) → (Key → Option Key) → (Key → Option Key) → A) → A
  after f = f (subject_school d) (student_school d) (group_school d)

  lesson_mono : (l : LessonRow) → before is_lesson_inside l ≡ true → after is_lesson_inside l ≡ true
  lesson_mono l h = ground (
    arith,
    h,
    in_school-Extends (subject_school db) (subject_school d) l.school_id l.subject_id subjects,
    in_school-Extends (student_school db) (student_school d) l.school_id l.student_id students,
    in_school-Extends (group_school db) (group_school d) l.school_id l.group_id groups,
  )

  -- A write that loses no row keeps the schools apart when the rows it leaves refer inside by the rows of before.
  pub grow-IsSeparate :
      KeysBelow d.next_id d.subjects
      → KeysBelow d.next_id d.students
      → KeysBelow d.next_id d.groups
      → all_rows (before is_student_inside) d.students ≡ true
      → all_rows (before is_group_inside) d.groups ≡ true
      → all_rows (before is_lesson_inside) d.lessons ≡ true
      → all (before is_member_inside) d.members ≡ true
      → IsSeparate d
  grow-IsSeparate below₁ below₂ below₃ s g l m = record {
    subjects_below = below₁;
    students_below = below₂;
    groups_below = below₃;
    students_inside =
        all_rows_mono (before is_student_inside) (after is_student_inside) d.students
          (λ r.
            in_school-Extends (subject_school db) (subject_school d) r.school_id r.subject_id
              subjects)
          s;
    groups_inside =
        all_rows_mono (before is_group_inside) (after is_group_inside) d.groups
          (λ r.
            in_school-Extends (subject_school db) (subject_school d) r.school_id r.subject_id
              subjects)
          g;
    lessons_inside =
        all_rows_mono (before is_lesson_inside) (after is_lesson_inside) d.lessons lesson_mono l;
    members_inside =
        all_mono (before is_member_inside) (after is_member_inside) d.members
          (λ r.
            same_school-Extends (group_school db) (group_school d) (student_school db)
              (student_school d) r.group_id r.student_id groups students)
          m;
  }

-- The writes, one by one.
module _ (db : Db) (c : IsSeparate db) where
  pub same : (rows : Key → Option Key) → Extends rows rows
  same rows x y h = h

  pub appended :
      {V : Type 0} (school : V → Key) (v : V) (t : Table V)
      → KeysBelow db.next_id t
      → Extends (school_of school t) (school_of school (append db.next_id v t))
  appended school v t below x y h =
      school_of-append school x y db.next_id v t (lookup_fresh db.next_id t below) h

  pub modified :
      {V : Type 0} (school : V → Key) (k : Key) (f : V → V) (t : Table V)
      → ((v : V) → school (f v) ≡ school v)
      → Extends (school_of school t) (school_of school (modify k f t))
  modified school k f t kept x y h = school_of-modify school x k f t kept ∙ h

  pub grown : {V : Type 0} (t : Table V) → KeysBelow db.next_id t → KeysBelow (db.next_id + 1) t
  grown t below = KeysBelow-mono db.next_id (db.next_id + 1) t (omega arith) below

  pub add_subject-IsSeparate :
      (s : SubjectRow)
      → IsSeparate
          (record db { subjects = append db.next_id s db.subjects; next_id = db.next_id + 1 })
  add_subject-IsSeparate s =
      grow-IsSeparate db
        (record db { subjects = append db.next_id s db.subjects; next_id = db.next_id + 1 })
        (appended (λ (r : SubjectRow). r.school_id) s db.subjects c.subjects_below) (same _)
        (same _) (append-KeysBelow db.next_id s db.subjects c.subjects_below)
        (grown db.students c.students_below) (grown db.groups c.groups_below) c.students_inside
        c.groups_inside c.lessons_inside c.members_inside

  pub change_subject-IsSeparate :
      (k : Key) (f : SubjectRow → SubjectRow)
      → ((r : SubjectRow) → (f r).school_id ≡ r.school_id)
      → IsSeparate (record db { subjects = modify k f db.subjects })
  change_subject-IsSeparate k f kept =
      grow-IsSeparate db (record db { subjects = modify k f db.subjects })
        (modified (λ (r : SubjectRow). r.school_id) k f db.subjects kept) (same _) (same _)
        (modify-KeysBelow db.next_id k f db.subjects c.subjects_below) c.students_below
        c.groups_below c.students_inside c.groups_inside c.lessons_inside c.members_inside
