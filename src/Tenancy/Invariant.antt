-- ===== src/Tenancy/Invariant.antt =====
-- The schools stay apart over every call, and so in everything that is reached.
use tutor_app_back.Tenancy.{
  IsSeparate, Platform, Step, Reach, creates_subject, renames_subject, hides_subject,
  restores_subject, creates_student, updates_student, removes_student, creates_group, updates_group,
  adds_member, removes_member, removes_group, books, updates_lesson, writes_journal, elsewhere,
  here, next,
}
use tutor_app_back.Tenancy.Calls.{
  create_subject-IsSeparate, rename_subject-IsSeparate, hide-IsSeparate, restore-IsSeparate,
  create_student-IsSeparate, update_student-IsSeparate, remove_student-IsSeparate,
}
use tutor_app_back.Tenancy.GroupCalls.{
  create_group-IsSeparate, update_group-IsSeparate, remove_group-IsSeparate, add_member-IsSeparate,
  remove_member-IsSeparate,
}
use tutor_app_back.Tenancy.Booking.{create_lesson-IsSeparate, update_status-IsSeparate}
use tutor_app_back.Tenancy.Registers.{write_journal-IsSeparate}
use tutor_app_back.Tenancy.Removals.{elsewhere-IsSeparate}
use tutor_app_back.Model.{Db}

-- Every call keeps the schools apart, whether it returns or throws.
pub Step-IsSeparate : (p : Platform) {db d : Db} → Step p db d → IsSeparate db → IsSeparate d
Step-IsSeparate p (creates_subject user typed db) c =
    create_subject-IsSeparate p.same_name user typed db c
Step-IsSeparate p (renames_subject user id typed db) c =
    rename_subject-IsSeparate p.same_name user typed db c id
Step-IsSeparate p (hides_subject now user id db) c = hide-IsSeparate user db c now id
Step-IsSeparate p (restores_subject user id db) c = restore-IsSeparate user db c id
Step-IsSeparate p (creates_student user dto db) c = create_student-IsSeparate user db c dto
Step-IsSeparate p (updates_student user id dto db) c = update_student-IsSeparate user db c id dto
Step-IsSeparate p (removes_student user id db) c = remove_student-IsSeparate user db c id
Step-IsSeparate p (creates_group user dto db) c = create_group-IsSeparate user db c dto
Step-IsSeparate p (updates_group user id dto db) c = update_group-IsSeparate user db c id dto
Step-IsSeparate p (adds_member user group student db) c =
    add_member-IsSeparate user db c group student
Step-IsSeparate p (removes_member user group student db) c =
    remove_member-IsSeparate user db c group student
Step-IsSeparate p (removes_group user id db) c = remove_group-IsSeparate user db c id
Step-IsSeparate p (books user dto db) c = create_lesson-IsSeparate user db c p.outside dto
Step-IsSeparate p (updates_lesson user id status db) c =
    update_status-IsSeparate user db c id status
Step-IsSeparate p (writes_journal user lesson dto db) c =
    write_journal-IsSeparate user lesson dto db c
Step-IsSeparate p (elsewhere db d subjects students groups members lessons le) c =
    elsewhere-IsSeparate db d subjects students groups members lessons le c

-- In every database that calls lead to from one where it is so, new ids are fresh, the subject of every student and group,
-- and the subject, the student and the group of every lesson, are stored rows of the same school, and the two ends of
-- every membership are stored and of one school.
pub Reach-IsSeparate : (p : Platform) {db d : Db} → IsSeparate db → Reach p db d → IsSeparate d
Reach-IsSeparate p c here = c
Reach-IsSeparate p c (next r s) = Step-IsSeparate p s (Reach-IsSeparate p c r)
