-- ===== src/Schools.antt =====
-- src/schools/schools.service.ts: a school and its first admin, its settings and its tutors. The hash of a
-- password, the lower-casing of an address, the normal form of a name and the random end of a slug are
-- arguments.
pub mod Slugs
use tutor_app_back.Invitations.{email_used, insert_user}
use tutor_app_back.Addons.{map_for_school, resolve_members}
use tutor_app_back.Prelude.{
  ℕ, ◌+◌, ◌*◌, Bool, true, false, not, ◌&&◌, Option, none, some, List, [], ◌∷◌, ◌++◌, ◌==◌,
  if◌then◌else◌, is_some, get_or, filter,
}
use tutor_app_back.Prelude.Table.{Key, Table, lookup, modify, append, find_first, find_many}
use tutor_app_back.Model.{
  UserRole, tutor, admin, AddonKey, SchoolRow, UserRow, User, email_taken, slug_taken,
  school_not_found, unique_violation, record_missing, ok, Action, throw, gets, or_throw,
  transaction, ◌>>=◌, ◌>>◌, throw_if,
}
use tutor_app_back.Model.Text.{Text, ascii, trim, text_eq, empty_config}

pub record RegisterSchool : Type 0 where
  pub school_name : Text
  pub slug : Option Text
  pub timezone : Option Text
  pub admin_email : Text
  pub admin_name : Text

abbrev pub slug_used : Text → Table SchoolRow → Bool
slug_used slug t = is_some (find_first (λ _ (s : SchoolRow). text_eq s.slug slug) t)

-- `school.create` and the unique index on slugs
abbrev pub insert_school : SchoolRow → Action Key
insert_school s db = if slug_used s.slug db.schools then throw unique_violation db else (
  ok db.next_id,
  record db { schools = append db.next_id s db.schools; next_id = db.next_id + 1 },
)

abbrev pub new_user : Text → Text → Text → UserRole → Key → UserRow
new_user email hash name role school = record {
  email = email;
  password_hash = hash;
  name = trim name;
  role = role;
  school_id = school;
  token_version = 0;
  config = empty_config;
}

-- The default of `gradeScaleMax` is twelve, in the units of a grade.
abbrev pub new_school : ℕ → Text → RegisterSchool → SchoolRow
new_school unit slug dto = record {
  name = trim dto.school_name;
  slug = slug;
  timezone = get_or dto.timezone (ascii "UTC");
  grade_scale_max = 12 * unit;
}

module _ (unit : ℕ) (lower : Text → Text) (slugify : Text → Text) where
  -- `register`, up to the session of the new admin.
  unfoldable pub register : RegisterSchool → Text → Action User
  unfolding insert_user
  register dto hash = do
    let email = lower (trim dto.admin_email)
    let slug = get_or dto.slug (slugify dto.school_name)
    used ← gets (λ db. email_used email db.users)
    taken ← gets (λ db. slug_used slug db.schools)
    throw_if used email_taken
    throw_if taken slug_taken
    transaction (
        insert_school (new_school unit slug dto) >>= λ school.
        insert_user (new_user email hash dto.admin_name admin school))

unfoldable pub find_current : User → Action SchoolRow
find_current user db = or_throw (lookup user.school_id db.schools) school_not_found db

pub record UpdateSchool : Type 0 where
  pub name : Option Text
  pub timezone : Option Text

abbrev pub trim_some : Option Text → Option Text
trim_some none = none
trim_some (some t) = some (trim t)

abbrev pub patch_school : UpdateSchool → SchoolRow → SchoolRow
patch_school dto s = record s {
  name = get_or (trim_some dto.name) s.name;
  timezone = get_or dto.timezone s.timezone;
}

-- `school.update`, which fails where there is no such school
unfoldable pub update : User → UpdateSchool → Action SchoolRow
update user dto db = elim (lookup user.school_id db.schools) [
  | none ↦ throw record_missing db
  | some s ↦ (
    ok (patch_school dto s),
    record db { schools = modify user.school_id (patch_school dto) db.schools },
  )
]

pub record Tutor : Type 0 where
  pub id : Key
  pub name : Text
  pub email : Text
  pub addons : List AddonKey

abbrev pub is_tutor : UserRole → Bool
is_tutor tutor = true
is_tutor admin = false

-- `addons[tutor.id] ?? []`
abbrev pub addons_of : Key → List (Key × List AddonKey) → List AddonKey
addons_of k [] = []
addons_of k ((j, held) ∷ t) = if k == j then held else addons_of k t

pub with_addons : List (Key × List AddonKey) → Table UserRow → List Tutor
with_addons held [] = []
with_addons held ((k, u) ∷ t) =
    record { id = k; name = u.name; email = u.email; addons = addons_of k held }
    ∷ with_addons held t

-- The stable sort that puts the caller first: ids are unique, so it moves one row.
pub own_first : Key → List Tutor → List Tutor
own_first own ts =
    filter (λ (t : Tutor). t.id == own) ts ++ filter (λ (t : Tutor). not (t.id == own)) ts

-- `listTutors`, of the rows in the order of their names
unfoldable pub list_tutors : User → Action (List Tutor)
unfolding map_for_school with_addons own_first
list_tutors user = do
  held ← map_for_school user.school_id
  gets (λ db. own_first user.id (
      with_addons held
        (find_many (λ u. u.school_id == user.school_id && is_tutor u.role) db.users)))

module _ (lower : Text → Text) where
  unfoldable pub create_tutor : User → Text → Text → Text → Action User
  unfolding insert_user
  create_tutor user typed name hash = do
    let email = lower (trim typed)
    used ← gets (λ db. email_used email db.users)
    throw_if used email_taken
    insert_user (new_user email hash name tutor user.school_id)
