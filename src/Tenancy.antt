-- ===== src/Tenancy.antt =====
-- Whose rows refer to whose, over src/students/students.service.ts, src/groups/groups.service.ts,
-- src/subjects/subjects.service.ts, src/lessons/lessons.service.ts and the journal of
-- src/gradebook/gradebook.service.ts: a reference never crosses from one school to another.
pub mod Rows
pub mod Writes
pub mod Moves
pub mod Removals
pub mod Resolving
pub mod Calls
pub mod GroupCalls
pub mod Rooms
pub mod Booking
pub mod Registers
pub mod Invariant
use tutor_app_back.Subjects
use tutor_app_back.Students
use tutor_app_back.Groups
use tutor_app_back.Lessons
use tutor_app_back.Students.{CreateStudent, UpdateStudent}
use tutor_app_back.Groups.{CreateGroup, UpdateGroup}
use tutor_app_back.Lessons.{CreateLesson, Outside}
use tutor_app_back.Gradebook.Journal.{WriteJournal, write_journal}
use tutor_app_back.Tenancy.Rows.{school_of, in_school, same_school, all_rows}
use tutor_app_back.Prelude.{◌≤◌, ◌≡◌, Bool, true, ◌&&◌, Option, all}
use tutor_app_back.Prelude.Int.{ℤ}
use tutor_app_back.Prelude.Table.{Key, KeysBelow}
use tutor_app_back.Model.{
  LessonStatus, User, SubjectRow, StudentRow, GroupRow, MemberRow, LessonRow, Db,
}
use tutor_app_back.Model.Text.{Text}

abbrev pub subject_school : Db → Key → Option Key
subject_school db = school_of (λ (s : SubjectRow). s.school_id) db.subjects

abbrev pub student_school : Db → Key → Option Key
student_school db = school_of (λ (s : StudentRow). s.school_id) db.students

abbrev pub group_school : Db → Key → Option Key
group_school db = school_of (λ (g : GroupRow). g.school_id) db.groups

-- What the schools of the rows say of one student, one group, one lesson and one membership.
module _ (subjects students groups : Key → Option Key) where
  abbrev pub is_student_inside : StudentRow → Bool
  is_student_inside s = in_school subjects s.school_id s.subject_id

  abbrev pub is_group_inside : GroupRow → Bool
  is_group_inside g = in_school subjects g.school_id g.subject_id

  abbrev pub is_lesson_inside : LessonRow → Bool
  is_lesson_inside l =
      in_school subjects l.school_id l.subject_id
      && (in_school students l.school_id l.student_id && in_school groups l.school_id l.group_id)

  abbrev pub is_member_inside : MemberRow → Bool
  is_member_inside m = same_school (groups m.group_id) (students m.student_id)

-- New ids are fresh. The subject of a student and of a group, and the subject, the student and the group of a lesson, are
-- stored rows of the same school, and so are the two ends of a membership.
pub record IsSeparate (db : Db) : Type 0 where
  pub subjects_below : KeysBelow db.next_id db.subjects
  pub students_below : KeysBelow db.next_id db.students
  pub groups_below : KeysBelow db.next_id db.groups
  pub students_inside :
      all_rows
        (is_student_inside (subject_school db) (student_school db) (group_school db))
        db.students
      ≡ true
  pub groups_inside :
      all_rows (is_group_inside (subject_school db) (student_school db) (group_school db)) db.groups
      ≡ true
  pub lessons_inside :
      all_rows
        (is_lesson_inside (subject_school db) (student_school db) (group_school db))
        db.lessons
      ≡ true
  pub members_inside :
      all (is_member_inside (subject_school db) (student_school db) (group_school db)) db.members
      ≡ true

-- What the methods are given from outside the program.
pub record Platform : Type 0 where
  pub same_name : Text → Text → Bool
  pub outside : Outside

-- A call of a method that writes subjects, students, groups, memberships or lessons, or of any other.
pub data Step (p : Platform) : Db → Db → Type 0 where
  creates_subject :
      (user : User) (typed : Text) (db : Db)
      → Step p db (Subjects.create p.same_name user typed db).1
  renames_subject :
      (user : User) (id : Key) (typed : Text) (db : Db)
      → Step p db (Subjects.rename p.same_name user id typed db).1
  hides_subject :
      (now : ℤ) (user : User) (id : Key) (db : Db) → Step p db (Subjects.hide now user id db).1
  restores_subject : (user : User) (id : Key) (db : Db) → Step p db (Subjects.restore user id db).1
  creates_student :
      (user : User) (dto : CreateStudent) (db : Db) → Step p db (Students.create user dto db).1
  updates_student :
      (user : User) (id : Key) (dto : UpdateStudent) (db : Db)
      → Step p db (Students.update user id dto db).1
  removes_student : (user : User) (id : Key) (db : Db) → Step p db (Students.remove user id db).1
  creates_group :
      (user : User) (dto : CreateGroup) (db : Db) → Step p db (Groups.create user dto db).1
  updates_group :
      (user : User) (id : Key) (dto : UpdateGroup) (db : Db)
      → Step p db (Groups.update user id dto db).1
  adds_member :
      (user : User) (group student : Key) (db : Db)
      → Step p db (Groups.add_member user group student db).1
  removes_member :
      (user : User) (group student : Key) (db : Db)
      → Step p db (Groups.remove_member user group student db).1
  removes_group : (user : User) (id : Key) (db : Db) → Step p db (Groups.remove user id db).1
  books :
      (user : User) (dto : CreateLesson) (db : Db)
      → Step p db (Lessons.create p.outside user dto db).1
  updates_lesson :
      (user : User) (id : Key) (status : LessonStatus) (db : Db)
      → Step p db (Lessons.update_status user id status db).1
  writes_journal :
      (user : User) (lesson : Key) (dto : WriteJournal) (db : Db)
      → Step p db (write_journal user lesson dto db).1
  elsewhere :
      (db d : Db)
      → d.subjects ≡ db.subjects
      → d.students ≡ db.students
      → d.groups ≡ db.groups
      → d.members ≡ db.members
      → d.lessons ≡ db.lessons
      → db.next_id ≤ d.next_id
      → Step p db d

-- The databases that calls lead to.
pub data Reach (p : Platform) (db : Db) : Db → Type 0 where
  here : Reach p db db
  next : {d e : Db} → Reach p db d → Step p d e → Reach p db e
