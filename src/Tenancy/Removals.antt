-- ===== src/Tenancy/Removals.antt =====
-- The removal of a student and of a group, with the deletions of prisma/schema.prisma behind them, keeps the schools apart.
use tutor_app_back.Tenancy.{
  IsSeparate, subject_school, student_school, group_school, is_student_inside, is_group_inside,
  is_lesson_inside, is_member_inside,
}
use tutor_app_back.Tenancy.Rows.{all_rows-find_many, all_rows-erase, in_school-erase}
use tutor_app_back.Tenancy.Writes.{all-filter}
use tutor_app_back.Members.Rows.{KeysBelow-mono}
use tutor_app_back.Prelude.{ℕ, ◌≤◌, ◌≡◌, true, not, [], ◌∷◌, arith, ◌==◌}
use tutor_app_back.Prelude.Table.{Key, Table, erase, lookup-erase_ne, KeysBelow}
use tutor_app_back.Model.{
  StudentRow, GroupRow, MemberRow, LessonRow, Db, is_key, delete_lessons, delete_group,
  delete_student,
}

erase-KeysBelow : {V : Type 0} (n k : ℕ) (t : Table V) → KeysBelow n t → KeysBelow n (erase k t)
erase-KeysBelow n k [] below = tt
erase-KeysBelow n k ((j, v) ∷ t) below = ground (arith, below, erase-KeysBelow n k t)

module _ (k : Key) (db : Db) (c : IsSeparate db) where
  lesson_without_student :
      (l : LessonRow)
      → is_lesson_inside (subject_school db) (student_school db) (group_school db) l ≡ true
      → not (is_key k l.student_id) ≡ true
      → is_lesson_inside
          (subject_school db)
          (student_school (delete_student k db))
          (group_school db)
          l
        ≡ true
  unfolding delete_student delete_lessons
  lesson_without_student l h kept = ground (
    arith,
    h,
    in_school-erase (λ (r : StudentRow). r.school_id) k db.students l.school_id l.student_id
        (ground (arith, kept)),
  )

  member_without_student :
      (m : MemberRow)
      → not (m.student_id == k) ≡ true
      → is_member_inside (subject_school db) (student_school db) (group_school db) m ≡ true
      → is_member_inside
          (subject_school db)
          (student_school (delete_student k db))
          (group_school db)
          m
        ≡ true
  unfolding delete_student delete_lessons
  member_without_student m kept h =
      ground (arith, h, lookup-erase_ne m.student_id k db.students (ground (arith, kept)))

  pub delete_student-IsSeparate : IsSeparate (delete_student k db)
  unfolding delete_student delete_lessons
  delete_student-IsSeparate = record {
    subjects_below = c.subjects_below;
    students_below = erase-KeysBelow db.next_id k db.students c.students_below;
    groups_below = c.groups_below;
    students_inside =
        all_rows-erase (is_student_inside (subject_school db) (student_school db) (group_school db))
          k db.students c.students_inside;
    groups_inside = c.groups_inside;
    lessons_inside =
        all_rows-find_many
          (is_lesson_inside (subject_school db) (student_school db) (group_school db))
          (is_lesson_inside (subject_school db) (student_school (delete_student k db))
            (group_school db))
          (λ l. not (is_key k l.student_id)) db.lessons lesson_without_student c.lessons_inside;
    members_inside =
        all-filter (is_member_inside (subject_school db) (student_school db) (group_school db))
          (is_member_inside (subject_school db) (student_school (delete_student k db))
            (group_school db))
          (λ m. not (m.student_id == k)) db.members member_without_student c.members_inside;
  }

  lesson_without_group :
      (l : LessonRow)
      → is_lesson_inside (subject_school db) (student_school db) (group_school db) l ≡ true
      → not (is_key k l.group_id) ≡ true
      → is_lesson_inside
          (subject_school db)
          (student_school db)
          (group_school (delete_group k db))
          l
        ≡ true
  unfolding delete_group delete_lessons
  lesson_without_group l h kept = ground (
    arith,
    h,
    in_school-erase (λ (r : GroupRow). r.school_id) k db.groups l.school_id l.group_id
        (ground (arith, kept)),
  )

  member_without_group :
      (m : MemberRow)
      → not (m.group_id == k) ≡ true
      → is_member_inside (subject_school db) (student_school db) (group_school db) m ≡ true
      → is_member_inside
          (subject_school db)
          (student_school db)
          (group_school (delete_group k db))
          m
        ≡ true
  unfolding delete_group delete_lessons
  member_without_group m kept h =
      ground (arith, h, lookup-erase_ne m.group_id k db.groups (ground (arith, kept)))

  pub delete_group-IsSeparate : IsSeparate (delete_group k db)
  unfolding delete_group delete_lessons
  delete_group-IsSeparate = record {
    subjects_below = c.subjects_below;
    students_below = c.students_below;
    groups_below = erase-KeysBelow db.next_id k db.groups c.groups_below;
    students_inside = c.students_inside;
    groups_inside =
        all_rows-erase (is_group_inside (subject_school db) (student_school db) (group_school db)) k
          db.groups c.groups_inside;
    lessons_inside =
        all_rows-find_many
          (is_lesson_inside (subject_school db) (student_school db) (group_school db))
          (is_lesson_inside (subject_school db) (student_school db)
            (group_school (delete_group k db)))
          (λ l. not (is_key k l.group_id)) db.lessons lesson_without_group c.lessons_inside;
    members_inside =
        all-filter (is_member_inside (subject_school db) (student_school db) (group_school db))
          (is_member_inside (subject_school db) (student_school db)
            (group_school (delete_group k db)))
          (λ m. not (m.group_id == k)) db.members member_without_group c.members_inside;
  }

-- Databases with the same rows in the five tables.
pub elsewhere-IsSeparate :
    (db d : Db)
    → d.subjects ≡ db.subjects
    → d.students ≡ db.students
    → d.groups ≡ db.groups
    → d.members ≡ db.members
    → d.lessons ≡ db.lessons
    → db.next_id ≤ d.next_id
    → IsSeparate db
    → IsSeparate d
elsewhere-IsSeparate db d subjects students groups members lessons le c = record {
  subjects_below =
      rw subjects (KeysBelow-mono db.next_id d.next_id db.subjects le c.subjects_below);
  students_below =
      rw students (KeysBelow-mono db.next_id d.next_id db.students le c.students_below);
  groups_below = rw groups (KeysBelow-mono db.next_id d.next_id db.groups le c.groups_below);
  students_inside = rw (subjects, students) c.students_inside;
  groups_inside = rw (subjects, groups) c.groups_inside;
  lessons_inside = rw (subjects, students, groups, lessons) c.lessons_inside;
  members_inside = rw (groups, students, members) c.members_inside;
}
