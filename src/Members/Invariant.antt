-- ===== src/Members/Invariant.antt =====
-- Consistency is kept by every step, and so in everything that is reached.
use tutor_app_back.Members.{
  IsConsistent, Platform, Step, Reach, registers, updates_school, creates_tutor, invites, revokes,
  accepts, updates_config, revokes_sessions, elsewhere, here, next,
}
use tutor_app_back.Members.Rows.{KeysBelow-mono}
use tutor_app_back.Members.Calls.{revoke_sessions-IsConsistent}
use tutor_app_back.Members.Calls.{
  create_tutor-IsConsistent, update-IsConsistent, revoke-IsConsistent, update_config-IsConsistent,
  invite-IsConsistent,
}
use tutor_app_back.Members.Joining.{accept-IsConsistent, register-IsConsistent}
use tutor_app_back.Prelude.{◌≤◌, ◌≡◌}
use tutor_app_back.Model.{Db}

elsewhere-IsConsistent :
    (db d : Db)
    → d.users ≡ db.users
    → d.schools ≡ db.schools
    → d.invitations ≡ db.invitations
    → db.next_id ≤ d.next_id
    → IsConsistent db
    → IsConsistent d
elsewhere-IsConsistent db d users schools invitations le c = record {
  users_below = rw users (KeysBelow-mono db.next_id d.next_id db.users le c.users_below);
  schools_below = rw schools (KeysBelow-mono db.next_id d.next_id db.schools le c.schools_below);
  addresses = rw users c.addresses;
  slugs = rw schools c.slugs;
  members = rw (users, schools) c.members;
  invited = rw (invitations, schools) c.invited;
}

-- Every call keeps the database consistent, whether it returns or throws.
pub Step-IsConsistent : (p : Platform) {db d : Db} → Step p db d → IsConsistent db → IsConsistent d
Step-IsConsistent p (registers dto hash db) c = register-IsConsistent p dto hash db c
Step-IsConsistent p (updates_school user dto db) c = update-IsConsistent user dto db c
Step-IsConsistent p (creates_tutor user typed name hash db signed) c =
    create_tutor-IsConsistent p.lower user typed name hash db signed c
Step-IsConsistent p (invites now token user typed db signed) c =
    invite-IsConsistent p.lower p.ttl_hours now token user typed db signed c
Step-IsConsistent p (revokes user id db) c = revoke-IsConsistent user id db c
Step-IsConsistent p (accepts now token name hash db) c =
    accept-IsConsistent now token name hash db c
Step-IsConsistent p (updates_config user patch db) c =
    update_config-IsConsistent p.parse_url p.read p.render user patch db c
Step-IsConsistent p (revokes_sessions user db) c = revoke_sessions-IsConsistent user db c
Step-IsConsistent p (elsewhere db d users schools invitations le) c =
    elsewhere-IsConsistent db d users schools invitations le c

-- In every database that calls lead to from a consistent one, no two users have one address, no two schools
-- have one, new ids are fresh, and the school of every user and of every invitation is stored, where the
-- callers who invite and who create tutors are stored users.
pub Reach-IsConsistent :
    (p : Platform) {db d : Db} → IsConsistent db → Reach p db d → IsConsistent d
Reach-IsConsistent p c here = c
Reach-IsConsistent p c (next r s) = Step-IsConsistent p s (Reach-IsConsistent p c r)
