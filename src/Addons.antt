-- ===== src/Addons.antt =====
-- src/addons/addons.service.ts: what a member of a school may do beyond their role.
pub mod Replacing
use tutor_app_back.Prelude.{
  Bool, true, false, not, ◌&&◌, ◌||◌, Option, none, some, List, [], ◌∷◌, ◌++◌, ◌==◌, if◌then◌else◌,
  filter, any,
}
use tutor_app_back.Prelude.Table.{Key, Table, lookup, find_many}
use tutor_app_back.Model.{
  UserRole, tutor, admin, is_admin, AddonKey, invite_tutors, broadcast_announcements,
  manage_students, UserRow, User, UserAddonRow, member_not_found, admins_hold_all,
  capability_missing, ok, Action, pure, throw, gets, ◌>>=◌, ◌>>◌, throw_if,
}

abbrev pub addon_eq : AddonKey → AddonKey → Bool
addon_eq invite_tutors invite_tutors = true
addon_eq broadcast_announcements broadcast_announcements = true
addon_eq manage_students manage_students = true
addon_eq _ _ = false

-- `Object.values(AddonKey)`
abbrev pub all_addons : List AddonKey
all_addons = invite_tutors ∷ broadcast_announcements ∷ manage_students ∷ []

-- `addons.includes(addon)`
abbrev pub includes : AddonKey → List AddonKey → Bool
includes addon held = any (addon_eq addon) held

-- The grants of a user, in the order of the rows.
abbrev pub granted : Key → List UserAddonRow → List AddonKey
granted user [] = []
granted user (r ∷ rows) =
    if r.user_id == user then r.addon ∷ granted user rows else granted user rows

abbrev pub held_by : UserRole → Key → List UserAddonRow → List AddonKey
held_by admin user rows = all_addons
held_by tutor user rows = granted user rows

unfoldable pub resolve_for : User → Action (List AddonKey)
resolve_for user = gets (λ db. held_by user.role user.id db.addons)

unfoldable pub has : User → AddonKey → Action Bool
unfolding resolve_for
has user addon = do held ← resolve_for user; pure (includes addon held)

-- `[...new Set(addons)]`
pub distinct_from : List AddonKey → List AddonKey → List AddonKey
distinct_from acc [] = acc
distinct_from acc (a ∷ rest) = distinct_from (if includes a acc then acc else acc ++ a ∷ []) rest

abbrev pub is_grant : Key → AddonKey → UserAddonRow → Bool
is_grant user addon r = r.user_id == user && addon_eq r.addon addon

-- `createMany` with `skipDuplicates`
abbrev pub grant_all : Key → Key → List AddonKey → List UserAddonRow → List UserAddonRow
grant_all user by [] rows = rows
grant_all user by (a ∷ rest) rows = grant_all user by rest (
    if any (is_grant user a) rows
    then rows
    else rows ++ record { user_id = user; addon = a; enabled_by_id = by } ∷ [])

-- `deleteMany` of the grants of a user that are not wanted
abbrev pub is_wanted : Key → List AddonKey → UserAddonRow → Bool
is_wanted user wanted r = not (r.user_id == user) || includes r.addon wanted

abbrev pub replace_grants : Key → Key → List AddonKey → List UserAddonRow → List UserAddonRow
replace_grants user by wanted rows = grant_all user by wanted (filter (is_wanted user wanted) rows)

unfoldable pub set_for : User → Key → List AddonKey → Action (List AddonKey)
unfolding distinct_from
set_for caller user addons db = elim (lookup user db.users) [
  | none ↦ throw member_not_found db
  | some target ↦
      if not (target.school_id == caller.school_id)
      then throw member_not_found db
      else (if is_admin target.role then throw admins_hold_all db else (
        ok (distinct_from [] addons),
        record db { addons = replace_grants user caller.id (distinct_from [] addons) db.addons },
      ))
]

-- The members of a school with what each of them may do.
abbrev pub resolve_members : List UserAddonRow → Table UserRow → List (Key × List AddonKey)
resolve_members rows [] = []
resolve_members rows ((k, u) ∷ t) = (k, held_by u.role k rows) ∷ resolve_members rows t

unfoldable pub map_for_school : Key → Action (List (Key × List AddonKey))
map_for_school school =
    gets (λ db. resolve_members db.addons (find_many (λ u. u.school_id == school) db.users))

-- `AddonGuard.canActivate` for a caller that is signed in, on a route with or without a requirement.
unfoldable pub can_activate : Option AddonKey → User → Action Bool
unfolding has
can_activate none user = pure true
can_activate (some addon) user = do
  held ← has user addon
  throw_if (not held) capability_missing
  pure true
