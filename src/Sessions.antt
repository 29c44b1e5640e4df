-- ===== src/Sessions.antt =====
-- src/auth/user-store.ts: where the sessions find their users, how they are revoked, and what the app is told about
-- the person who signed in. The library of the sessions keeps the rest.
use tutor_app_back.Addons.{resolve_for}
use tutor_app_back.Users.{UserConfig, parse_user_config}
use tutor_app_back.Prelude.{◌+◌, Option, List, if◌then◌else◌, is_some}
use tutor_app_back.Prelude.Table.{Key, lookup, modify, find_first}
use tutor_app_back.Model.{
  UserRole, AddonKey, UserRow, User, record_missing, ok, Action, pure, throw, gets, ◌>>=◌,
}
use tutor_app_back.Model.Text.{Text, text_eq}

unfoldable pub find_by_email : Text → Action (Option (Key × UserRow))
find_by_email email = gets (λ db. find_first (λ _ (u : UserRow). text_eq u.email email) db.users)

unfoldable pub find_by_id : Key → Action (Option UserRow)
find_by_id id = gets (λ db. lookup id db.users)

-- `tokenVersion: { increment: 1 }`
abbrev pub revoked : UserRow → UserRow
revoked u = record u { token_version = u.token_version + 1 }

-- `user.update`, which fails where there is no such user
unfoldable pub revoke_sessions : User → Action (Unit {0})
revoke_sessions user db =
    if is_some (lookup user.id db.users)
    then (ok tt, record db { users = modify user.id revoked db.users })
    else throw record_missing db

-- The role is not written out in lower case.
pub record AuthUserPayload : Type 0 where
  pub id : Key
  pub email : Text
  pub name : Text
  pub role : UserRole
  pub school_id : Key
  pub addons : List AddonKey
  pub config : UserConfig

unfoldable pub to_payload : (Text → Option UserConfig) → User → Action AuthUserPayload
unfolding resolve_for parse_user_config
to_payload read user = do
  addons ← resolve_for user
  pure (record {
    id = user.id;
    email = user.email;
    name = user.name;
    role = user.role;
    school_id = user.school_id;
    addons = addons;
    config = parse_user_config read user.config;
  })
