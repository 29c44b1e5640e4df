-- ===== src/Members.antt =====
-- The users, the schools and the invitations together, over every method that writes them:
-- src/schools/schools.service.ts, src/invitations/invitations.service.ts, src/users/users.service.ts and
-- src/auth/user-store.ts. A
-- signed-in caller is a stored user, as the guard of the sessions reads them.
pub mod Rows
pub mod Writes
pub mod Calls
pub mod Joining
pub mod Invariant
use tutor_app_back.Schools.{RegisterSchool, UpdateSchool, create_tutor}
use tutor_app_back.Sessions.{revoke_sessions}
use tutor_app_back.Schools
use tutor_app_back.Invitations.{invite, revoke, accept}
use tutor_app_back.Users.{UserConfig, UserConfigPatch, update_config}
use tutor_app_back.Meetings.Providers.{Url}
use tutor_app_back.Members.Rows.{IsDistinct, Belong}
use tutor_app_back.Prelude.{ℕ, ◌≤◌, ◌≡◌, Option, some}
use tutor_app_back.Prelude.Int.{ℤ}
use tutor_app_back.Prelude.Table.{Key, lookup, KeysBelow}
use tutor_app_back.Model.{SchoolRow, UserRow, User, InvitationRow, Db}
use tutor_app_back.Model.Text.{Text}

-- New ids are fresh; no two users have one address and no two schools one; and the school of every user and of
-- every invitation is stored.
pub record IsConsistent (db : Db) : Type 0 where
  pub users_below : KeysBelow db.next_id db.users
  pub schools_below : KeysBelow db.next_id db.schools
  pub addresses : IsDistinct (λ (u : UserRow). u.email) db.users
  pub slugs : IsDistinct (λ (s : SchoolRow). s.slug) db.schools
  pub members : Belong (λ (u : UserRow). u.school_id) db.schools db.users
  pub invited : Belong (λ (i : InvitationRow). i.school_id) db.schools db.invitations

abbrev pub IsSignedIn : User → Db → Type 0
IsSignedIn user db = lookup user.id db.users ≡ some user.row

-- What the methods are given from outside the program.
pub record Platform : Type 0 where
  pub lower : Text → Text
  pub slugify : Text → Text
  pub unit : ℕ
  pub ttl_hours : ℕ
  pub parse_url : Text → Option Url
  pub read : Text → Option UserConfig
  pub render : UserConfig → Text

-- A call of a method that writes users, schools or invitations, or of any other, which at most takes new ids.
pub data Step (p : Platform) : Db → Db → Type 0 where
  registers :
      (dto : RegisterSchool) (hash : Text) (db : Db)
      → Step p db (Schools.register p.unit p.lower p.slugify dto hash db).1
  updates_school :
      (user : User) (dto : UpdateSchool) (db : Db) → Step p db (Schools.update user dto db).1
  creates_tutor :
      (user : User) (typed name hash : Text) (db : Db)
      → IsSignedIn user db
      → Step p db (create_tutor p.lower user typed name hash db).1
  invites :
      (now : ℤ) (token : Text) (user : User) (typed : Text) (db : Db)
      → IsSignedIn user db
      → Step p db (invite p.lower p.ttl_hours now token user typed db).1
  revokes : (user : User) (id : Key) (db : Db) → Step p db (revoke user id db).1
  accepts :
      (now : ℤ) (token name hash : Text) (db : Db) → Step p db (accept now token name hash db).1
  updates_config :
      (user : User) (patch : UserConfigPatch) (db : Db)
      → Step p db (update_config p.parse_url p.read p.render user patch db).1
  revokes_sessions : (user : User) (db : Db) → Step p db (revoke_sessions user db).1
  elsewhere :
      (db d : Db)
      → d.users ≡ db.users
      → d.schools ≡ db.schools
      → d.invitations ≡ db.invitations
      → db.next_id ≤ d.next_id
      → Step p db d

-- The databases that calls lead to.
pub data Reach (p : Platform) (db : Db) : Db → Type 0 where
  here : Reach p db db
  next : {d e : Db} → Reach p db d → Step p d e → Reach p db e
