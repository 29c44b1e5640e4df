-- ===== src/Groups.antt =====
-- src/groups/groups.service.ts: groups of students taught together.
use tutor_app_back.Subjects.{resolve}
use tutor_app_back.Students
use tutor_app_back.Students.{is_visible, trimmed}
use tutor_app_back.Prelude.{
  ◌+◌, Bool, not, ◌&&◌, Option, none, some, List, [], ◌∷◌, ◌++◌, ◌==◌, if◌then◌else◌, get_or,
  filter, any,
}
use tutor_app_back.Prelude.Table.{Key, Table, lookup, modify, append, find_many}
use tutor_app_back.Model.{
  is_admin, User, GroupRow, MemberRow, group_not_found, Action, pure, throw, gets, ◌>>=◌, ◌>>◌,
  write, delete_group,
}
use tutor_app_back.Model.Text.{Text, trim, or_null}

unfoldable pub find_visible : User → Action (Table GroupRow)
find_visible user = gets (λ db. find_many (λ g. is_visible user g.school_id g.tutor_id) db.groups)

-- The rule of `GroupsService.findOne`, and of `LessonsService.findReachableGroup`.
unfoldable pub find_one : User → Key → Action GroupRow
find_one user id db = elim (lookup id db.groups) [
  | none ↦ throw group_not_found db
  | some g ↦
      if not (g.school_id == user.school_id)
      then throw group_not_found db
      else (if not (is_admin user.role) && not (g.tutor_id == user.id)
          then throw group_not_found db
          else pure g db)
]

pub record CreateGroup : Type 0 where
  pub name : Text
  pub subject_id : Key
  pub level : Option Text

-- `dto.level?.trim() || null`
abbrev pub trimmed_or_null : Option Text → Option Text
trimmed_or_null none = none
trimmed_or_null (some s) = or_null (trim s)

unfoldable pub create : User → CreateGroup → Action GroupRow
unfolding resolve
create user dto = do
  subject ← resolve user (some dto.subject_id) none
  let g : GroupRow = record {
    name = trim dto.name;
    level = trimmed_or_null dto.level;
    school_id = user.school_id;
    tutor_id = user.id;
    subject_id = subject;
  }
  write (λ db. record db { groups = append db.next_id g db.groups; next_id = db.next_id + 1 })
  pure g

pub record UpdateGroup : Type 0 where
  pub name : Option Text
  pub subject_id : Option Key
  pub level : Option Text

-- An absent subject is unchanged; there is no way to clear one.
unfoldable pub resolve_patch : User → Option Key → Option Key → Action (Option Key)
unfolding resolve
resolve_patch user none current = pure current
resolve_patch user (some id) current = resolve user (some id) current

-- An absent level is unchanged, and an empty one clears it.
abbrev pub patch_level : Option Text → Option Text → Option Text
patch_level none old = old
patch_level (some s) old = or_null (trim s)

abbrev pub patch_group : UpdateGroup → Option Key → GroupRow → GroupRow
patch_group dto subject g = record g {
  name = get_or (trimmed dto.name) g.name;
  subject_id = subject;
  level = patch_level dto.level g.level;
}

unfoldable pub update : User → Key → UpdateGroup → Action GroupRow
unfolding find_one resolve_patch
update user id dto = do
  group ← find_one user id
  subject ← resolve_patch user dto.subject_id group.subject_id
  write (λ db. record db { groups = modify id (patch_group dto subject) db.groups })
  pure (patch_group dto subject group)

abbrev pub is_member : Key → Key → MemberRow → Bool
is_member group student m = m.group_id == group && m.student_id == student

-- `groupMember.upsert` with an empty update
abbrev pub put_member : Key → Key → List MemberRow → List MemberRow
put_member group student ms =
    if any (is_member group student) ms
    then ms
    else ms ++ record { group_id = group; student_id = student } ∷ []

unfoldable pub add_member : User → Key → Key → Action GroupRow
unfolding find_one Students.find_one
add_member user group student = do
  find_one user group
  Students.find_one user student
  write (λ db. record db { members = put_member group student db.members })
  find_one user group

unfoldable pub remove_member : User → Key → Key → Action GroupRow
unfolding find_one
remove_member user group student = do
  find_one user group
  write (λ db. record db { members = filter (λ m. not (is_member group student m)) db.members })
  find_one user group

unfoldable pub remove : User → Key → Action (Unit {0})
unfolding find_one
remove user id = do find_one user id; write (delete_group id)
