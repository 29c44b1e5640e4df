-- ===== src/Tenancy/Moves.antt =====
-- The writes on students, groups, memberships and lessons keep the schools apart.
use tutor_app_back.Tenancy.{
  IsSeparate, subject_school, student_school, group_school, is_student_inside, is_group_inside,
  is_lesson_inside, is_member_inside,
}
use tutor_app_back.Tenancy.Rows.{in_school, all_rows-append, all_rows-modify}
use tutor_app_back.Tenancy.Writes.{grow-IsSeparate, same, appended, modified, grown}
use tutor_app_back.Members.Rows.{append-KeysBelow, modify-KeysBelow}
use tutor_app_back.Prelude.{◌+◌, ◌≡◌, ◌∙◌, Bool, true, Option, some, List, all}
use tutor_app_back.Prelude.Table.{Key, lookup, modify, append}
use tutor_app_back.Model.{StudentRow, GroupRow, MemberRow, LessonRow, Db}

module _ (db : Db) (c : IsSeparate db) where
  abbrev subject_inside : Key → Option Key → Bool
  subject_inside school ref = in_school (subject_school db) school ref

  pub add_student-IsSeparate :
      (s : StudentRow)
      → subject_inside s.school_id s.subject_id ≡ true
      → IsSeparate
          (record db { students = append db.next_id s db.students; next_id = db.next_id + 1 })
  add_student-IsSeparate s inside =
      grow-IsSeparate db
        (record db { students = append db.next_id s db.students; next_id = db.next_id + 1 })
        (same db c _)
        (appended db c (λ (r : StudentRow). r.school_id) s db.students c.students_below)
        (same db c _) (grown db c db.subjects c.subjects_below)
        (append-KeysBelow db.next_id s db.students c.students_below)
        (grown db c db.groups c.groups_below)
        (all_rows-append
          (is_student_inside (subject_school db) (student_school db) (group_school db)) db.next_id s
          db.students c.students_inside inside)
        c.groups_inside c.lessons_inside c.members_inside

  pub change_student-IsSeparate :
      (k : Key) (f : StudentRow → StudentRow)
      → ((r : StudentRow) → (f r).school_id ≡ r.school_id)
      → ((r : StudentRow)
          → lookup k db.students ≡ some r
          → subject_inside r.school_id r.subject_id ≡ true
          → subject_inside (f r).school_id (f r).subject_id ≡ true)
      → IsSeparate (record db { students = modify k f db.students })
  change_student-IsSeparate k f kept inside =
      grow-IsSeparate db (record db { students = modify k f db.students }) (same db c _)
        (modified db c (λ (r : StudentRow). r.school_id) k f db.students kept) (same db c _)
        c.subjects_below (modify-KeysBelow db.next_id k f db.students c.students_below)
        c.groups_below
        (all_rows-modify
          (is_student_inside (subject_school db) (student_school db) (group_school db)) k f
          db.students c.students_inside inside)
        c.groups_inside c.lessons_inside c.members_inside

  pub add_group-IsSeparate :
      (g : GroupRow)
      → subject_inside g.school_id g.subject_id ≡ true
      → IsSeparate (record db { groups = append db.next_id g db.groups; next_id = db.next_id + 1 })
  add_group-IsSeparate g inside =
      grow-IsSeparate db
        (record db { groups = append db.next_id g db.groups; next_id = db.next_id + 1 })
        (same db c _) (same db c _)
        (appended db c (λ (r : GroupRow). r.school_id) g db.groups c.groups_below)
        (grown db c db.subjects c.subjects_below) (grown db c db.students c.students_below)
        (append-KeysBelow db.next_id g db.groups c.groups_below) c.students_inside
        (all_rows-append (is_group_inside (subject_school db) (student_school db) (group_school db))
          db.next_id g db.groups c.groups_inside inside)
        c.lessons_inside c.members_inside

  pub change_group-IsSeparate :
      (k : Key) (f : GroupRow → GroupRow)
      → ((r : GroupRow) → (f r).school_id ≡ r.school_id)
      → ((r : GroupRow)
          → lookup k db.groups ≡ some r
          → subject_inside r.school_id r.subject_id ≡ true
          → subject_inside (f r).school_id (f r).subject_id ≡ true)
      → IsSeparate (record db { groups = modify k f db.groups })
  change_group-IsSeparate k f kept inside =
      grow-IsSeparate db (record db { groups = modify k f db.groups }) (same db c _) (same db c _)
        (modified db c (λ (r : GroupRow). r.school_id) k f db.groups kept) c.subjects_below
        c.students_below (modify-KeysBelow db.next_id k f db.groups c.groups_below)
        c.students_inside
        (all_rows-modify (is_group_inside (subject_school db) (student_school db) (group_school db))
          k f db.groups c.groups_inside inside)
        c.lessons_inside c.members_inside

  pub add_lesson-IsSeparate :
      (l : LessonRow)
      → is_lesson_inside (subject_school db) (student_school db) (group_school db) l ≡ true
      → IsSeparate
          (record db { lessons = append db.next_id l db.lessons; next_id = db.next_id + 1 })
  add_lesson-IsSeparate l inside =
      grow-IsSeparate db
        (record db { lessons = append db.next_id l db.lessons; next_id = db.next_id + 1 })
        (same db c _) (same db c _) (same db c _) (grown db c db.subjects c.subjects_below)
        (grown db c db.students c.students_below) (grown db c db.groups c.groups_below)
        c.students_inside c.groups_inside
        (all_rows-append
          (is_lesson_inside (subject_school db) (student_school db) (group_school db)) db.next_id l
          db.lessons c.lessons_inside inside)
        c.members_inside

  -- A change to a lesson that leaves its school and its references.
  pub change_lesson-IsSeparate :
      (k : Key) (f : LessonRow → LessonRow)
      → ((l : LessonRow)
          → is_lesson_inside (subject_school db) (student_school db) (group_school db) (f l)
            ≡ is_lesson_inside (subject_school db) (student_school db) (group_school db) l)
      → IsSeparate (record db { lessons = modify k f db.lessons })
  change_lesson-IsSeparate k f kept =
      grow-IsSeparate db (record db { lessons = modify k f db.lessons }) (same db c _) (same db c _)
        (same db c _) c.subjects_below c.students_below c.groups_below c.students_inside
        c.groups_inside
        (all_rows-modify
          (is_lesson_inside (subject_school db) (student_school db) (group_school db)) k f
          db.lessons c.lessons_inside (λ l _ h. kept l ∙ h))
        c.members_inside

  pub change_members-IsSeparate :
      (ms : List MemberRow)
      → all (is_member_inside (subject_school db) (student_school db) (group_school db)) ms ≡ true
      → IsSeparate (record db { members = ms })
  change_members-IsSeparate ms inside =
      grow-IsSeparate db (record db { members = ms }) (same db c _) (same db c _) (same db c _)
        c.subjects_below c.students_below c.groups_below c.students_inside c.groups_inside
        c.lessons_inside inside
