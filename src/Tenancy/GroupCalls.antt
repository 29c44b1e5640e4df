-- ===== src/Tenancy/GroupCalls.antt =====
-- Every method of src/groups/groups.service.ts that writes keeps the schools apart.
use tutor_app_back.Tenancy.{
  IsSeparate, subject_school, student_school, group_school, is_member_inside,
}
use tutor_app_back.Tenancy.Rows.{same_school}
use tutor_app_back.Tenancy.Moves.{
  add_group-IsSeparate, change_group-IsSeparate, change_members-IsSeparate,
}
use tutor_app_back.Tenancy.Writes.{all-filter}
use tutor_app_back.Tenancy.Removals.{delete_group-IsSeparate}
use tutor_app_back.Tenancy.Resolving.{
  read-keeps, resolve-state, resolve-inside, group_patch-state, group_patch-inside,
}
use tutor_app_back.Access.{
  student-find_one_iff, student-find_one-state, group-find_one_iff, group-find_one-state,
}
use tutor_app_back.Subjects.{resolve}
use tutor_app_back.Students
use tutor_app_back.Students.{CreateStudent, UpdateStudent, new_student, patch_student}
use tutor_app_back.Groups
use tutor_app_back.Groups.{
  CreateGroup, UpdateGroup, trimmed_or_null, patch_group, put_member, is_member,
}
use tutor_app_back.Prelude.{
  ◌+◌, ◌≡◌, refl, sym, inl, inr, Bool, true, not, Option, none, some, List, [], ◌∷◌, ◌++◌, arith,
  Bool-cases, filter, any, all,
}
use tutor_app_back.Prelude.Table.{Key, modify, append}
use tutor_app_back.Model.{
  User, GroupRow, MemberRow, Db, Action, pure, ◌>>=◌, ◌>>◌, write, delete_group,
}
use tutor_app_back.Model.Text.{trim}

module _ (user : User) (db : Db) (c : IsSeparate db) where
  pub create_group-IsSeparate : (dto : CreateGroup) → IsSeparate (Groups.create user dto db).1
  unfolding Groups.create
  create_group-IsSeparate dto =
      let made : Option Key → GroupRow = λ subject. record {
        name = trim dto.name;
        level = trimmed_or_null dto.level;
        school_id = user.school_id;
        tutor_id = user.id;
        subject_id = subject;
      } in
      read-keeps IsSeparate (resolve user (some dto.subject_id) none)
        (λ subject.
          write (λ e. record e {
            groups = append e.next_id (made subject) e.groups;
            next_id = e.next_id + 1;
          })
          >> pure (made subject))
        db (resolve-state user (some dto.subject_id) none db) c
        (λ subject h.
          add_group-IsSeparate db c (made subject)
            (resolve-inside user (some dto.subject_id) none subject db h))

  pub update_group-IsSeparate :
      (id : Key) (dto : UpdateGroup) → IsSeparate (Groups.update user id dto db).1
  unfolding Groups.update
  update_group-IsSeparate id dto =
      let store : GroupRow → Option Key → Action GroupRow = λ g subject.
        write (λ e. record e { groups = modify id (patch_group dto subject) e.groups })
        >> pure (patch_group dto subject g) in
      read-keeps IsSeparate (Groups.find_one user id)
        (λ g. Groups.resolve_patch user dto.subject_id g.subject_id >>= store g) db
        (group-find_one-state user id db) c
        (λ g h.
          let (found, (own, _)) = (group-find_one_iff user id db g).0 h in
          read-keeps IsSeparate (Groups.resolve_patch user dto.subject_id g.subject_id) (store g) db
            (group_patch-state user dto.subject_id g.subject_id db) c
            (λ subject h'.
              change_group-IsSeparate db c id (patch_group dto subject) (λ r. refl)
                (λ r there inside.
                  let at : r.school_id ≡ user.school_id = ground (arith, there, found, own) in
                  let held : r.subject_id ≡ g.subject_id = ground (arith, there, found) in
                  rw at (
                    group_patch-inside user dto.subject_id g.subject_id subject db
                      (rw (sym held) (rw (sym at) inside)) h'))))

  pub remove_group-IsSeparate : (id : Key) → IsSeparate (Groups.remove user id db).1
  unfolding Groups.remove
  remove_group-IsSeparate id =
      read-keeps IsSeparate (Groups.find_one user id) (λ _. write (delete_group id)) db
        (group-find_one-state user id db) c (λ g h. delete_group-IsSeparate id db c)

  members_with :
      (group student : Key) (ms : List MemberRow)
      → all (is_member_inside (subject_school db) (student_school db) (group_school db)) ms ≡ true
      → same_school (group_school db group) (student_school db student) ≡ true
      → all
          (is_member_inside (subject_school db) (student_school db) (group_school db))
          (ms ++ record { group_id = group; student_id = student } ∷ [])
        ≡ true
  members_with group student [] h inside = ground (arith, inside)
  members_with group student (m ∷ ms) h inside =
      ground (arith, h, members_with group student ms, inside)

  pub add_member-IsSeparate :
      (group student : Key) → IsSeparate (Groups.add_member user group student db).1
  unfolding Groups.add_member
  add_member-IsSeparate group student =
      let added : Action GroupRow =
        write (λ e. record e { members = put_member group student e.members })
        >> Groups.find_one user group in
      read-keeps IsSeparate (Groups.find_one user group)
        (λ _. Students.find_one user student >> added) db (group-find_one-state user group db) c
        (λ g h.
          read-keeps IsSeparate (Students.find_one user student) (λ _. added) db
            (student-find_one-state user student db) c
            (λ s h'.
              let (found, (own, _)) = (group-find_one_iff user group db g).0 h in
              let (found', (own', _)) = (student-find_one_iff user student db s).0 h' in
              let inside : same_school (group_school db group) (student_school db student) ≡ true =
                ground (arith, found, own, found', own') in
              rw
                (group-find_one-state user group
                  (record db { members = put_member group student db.members }))
                (change_members-IsSeparate db c (put_member group student db.members)
                  (elim (Bool-cases (any (is_member group student) db.members)) [
                    | inl there ↦ rw there c.members_inside
                    | inr new ↦
                        rw new (members_with group student db.members c.members_inside inside)
                  ]))))

  pub remove_member-IsSeparate :
      (group student : Key) → IsSeparate (Groups.remove_member user group student db).1
  unfolding Groups.remove_member
  remove_member-IsSeparate group student =
      let keep : MemberRow → Bool = λ m. not (is_member group student m) in
      read-keeps IsSeparate (Groups.find_one user group)
        (λ _.
          write (λ e. record e { members = filter keep e.members }) >> Groups.find_one user group)
        db (group-find_one-state user group db) c
        (λ g h.
          rw (group-find_one-state user group (record db { members = filter keep db.members })) (
            change_members-IsSeparate db c (filter keep db.members) (
              all-filter
                (is_member_inside (subject_school db) (student_school db) (group_school db))
                (is_member_inside (subject_school db) (student_school db) (group_school db)) keep
                db.members (λ m _ inside. inside) c.members_inside)))
