-- ===== src/Tests.antt =====
-- A small school to evaluate the services on: two tutors and an admin, two students, a group lesson
-- with its register, and a lesson to one. No source file is modelled here.
mod Journals
mod Grades
mod Rows
mod Topics
mod Shelf
mod Months
mod Links
mod News
mod Debts
mod Capabilities
mod Rooms
mod Preferences
mod People
mod Startup
mod Bytes
mod Apart
mod Edges
use tutor_app_back.Prelude.{String, Option, none, some, [], ◌∷◌}
use tutor_app_back.Prelude.Int.{ℤ, pos}
use tutor_app_back.Prelude.Table.{Key}
use tutor_app_back.Model.{
  UserRole, tutor, admin, scheduled, present, classic, SchoolRow, UserRow, User, SubjectRow,
  StudentRow, GroupRow, LessonRow, GradeRow, Db,
}
use tutor_app_back.Model.Text.{ascii}

abbrev pub user_row : UserRole → UserRow
user_row role = record {
  email = ascii "a@b.c";
  password_hash = ascii "hash";
  name = ascii "Ada";
  role = role;
  school_id = 1;
  token_version = 0;
  config = ascii "{}";
}

abbrev pub teacher : User
teacher = record { id = 10; row = user_row tutor }

abbrev pub head : User
head = record { id = 11; row = user_row admin }

abbrev pub colleague : User
colleague = record { id = 12; row = user_row tutor }

abbrev pub pupil : ℤ → StudentRow
pupil left = record {
  name = ascii "Bo";
  paid_lessons_left = left;
  school_id = 1;
  tutor_id = 10;
  subject_id = some 50;
}

abbrev pub group_row : GroupRow
group_row = record {
  name = ascii "Evening";
  level = none;
  school_id = 1;
  tutor_id = 10;
  subject_id = some 50;
}

abbrev pub lesson_row : Option Key → Option Key → LessonRow
lesson_row student group = record {
  starts_at = pos 1000;
  duration_minutes = 60;
  status = scheduled;
  school_id = 1;
  tutor_id = 10;
  subject_id = some 50;
  student_id = student;
  group_id = group;
  topic = none;
  homework = none;
  meeting_url = none;
  meeting_provider = none;
}

abbrev pub subject_row : String → SubjectRow
subject_row name = record { name = ascii name; hidden_at = none; school_id = 1 }

abbrev pub school_row : SchoolRow
school_row = record {
  name = ascii "North";
  slug = ascii "north";
  timezone = ascii "UTC";
  grade_scale_max = 600;
}

-- The value is in hundredths.
abbrev pub grade_row : GradeRow
grade_row = record {
  kind = classic;
  value = some 450;
  category = none;
  comment = none;
  weight = pos 1;
  student_id = 20;
  lesson_id = some 41;
  author_id = 10;
  created_at = pos 900;
}

-- Student 20 came to the group lesson 40 and was charged for it.
abbrev pub north : Db
north = record {
  schools = (1, school_row) ∷ [];
  users = (10, user_row tutor) ∷ (11, user_row admin) ∷ (12, user_row tutor) ∷ [];
  subjects = (50, subject_row "Algebra") ∷ (51, subject_row "Latin") ∷ [];
  students = (20, pupil (pos 3)) ∷ (21, pupil (pos 0)) ∷ [];
  groups = (30, group_row) ∷ [];
  members =
      record { group_id = 30; student_id = 20 } ∷ record { group_id = 30; student_id = 21 } ∷ [];
  lessons = (40, lesson_row none (some 30)) ∷ (41, lesson_row (some 20) none) ∷ [];
  attendances =
      record { lesson_id = 40; student_id = 20; status = present; homework_done = none } ∷ [];
  grades = (60, grade_row) ∷ [];
  notes = [];
  files = [];
  invitations = [];
  addons = [];
  meeting_accounts = [];
  push_tokens = [];
  notifications = [];
  support_requests = [];
  next_id = 100;
}
