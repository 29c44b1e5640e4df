-- ===== src/Members/Calls.antt =====
-- Consistency is kept by the calls of signed-in users.
use tutor_app_back.Members.{IsConsistent, IsSignedIn}
use tutor_app_back.Members.Rows.{append-Belong, modify-Belong, erase-Belong, stored-Belong}
use tutor_app_back.Members.Writes.{
  IsStored, insert_user-IsConsistent, change_user-IsConsistent, change_school-IsConsistent,
  change_invitations-IsConsistent,
}
use tutor_app_back.Invitations.{
  email_used, invite, revoke, upsert_invitation, renewed, new_invitation, is_for, is_token_taken,
  is_own, hour_ms,
}
use tutor_app_back.Sessions.{revoke_sessions, revoked}
use tutor_app_back.Schools
use tutor_app_back.Schools.{UpdateSchool, new_user, patch_school, create_tutor}
use tutor_app_back.Meetings.Providers.{Url}
use tutor_app_back.Users.{UserConfig, UserConfigPatch, patch_fits, update_config}
use tutor_app_back.Prelude.{
  ℕ, ◌+◌, ◌*◌, refl, inl, inr, Option, arith, Bool-cases, Option-cases, is_some,
}
use tutor_app_back.Prelude.Int.{ℤ, pos, ◌+ℤ◌}
use tutor_app_back.Prelude.Table.{Key, lookup, modify, erase, append, find_first}
use tutor_app_back.Model.{tutor, UserRow, User, InvitationRow, Db}
use tutor_app_back.Model.Text.{Text, trim}

pub signed_in-IsStored :
    (user : User) (db : Db) → IsConsistent db → IsSignedIn user db → IsStored user.school_id db
signed_in-IsStored user db c signed =
    stored-Belong (λ (u : UserRow). u.school_id) db.schools user.id user.row db.users c.members
      signed

pub create_tutor-IsConsistent :
    (lower : Text → Text) (user : User) (typed name hash : Text) (db : Db)
    → IsSignedIn user db
    → IsConsistent db
    → IsConsistent (create_tutor lower user typed name hash db).1
unfolding create_tutor
create_tutor-IsConsistent lower user typed name hash db signed c =
    elim (Bool-cases (email_used (lower (trim typed)) db.users)) [
      | inl taken ↦ rw (taken, create_tutor) c
      | inr fresh ↦
          rw (fresh, create_tutor)
            (insert_user-IsConsistent (new_user (lower (trim typed)) hash name tutor user.school_id)
              db c (signed_in-IsStored user db c signed))
    ]

pub update-IsConsistent :
    (user : User) (dto : UpdateSchool) (db : Db)
    → IsConsistent db
    → IsConsistent (Schools.update user dto db).1
unfolding Schools.update
update-IsConsistent user dto db c = elim (Option-cases (lookup user.school_id db.schools)) [
  | inl missing ↦ rw (missing, Schools.update) c
  | inr (s, found) ↦
      rw (found, Schools.update)
        (change_school-IsConsistent user.school_id (patch_school dto) db (λ r. refl) c)
]

pub revoke-IsConsistent :
    (user : User) (id : Key) (db : Db) → IsConsistent db → IsConsistent (revoke user id db).1
unfolding revoke
revoke-IsConsistent user id db c =
    elim (Bool-cases (is_own user.school_id (lookup id db.invitations))) [
      | inr foreign ↦ rw (foreign, revoke) c
      | inl own ↦
          rw (own, revoke)
            (change_invitations-IsConsistent (erase id db.invitations) db.next_id db (omega arith)
              (erase-Belong (λ (i : InvitationRow). i.school_id) db.schools id db.invitations
                c.invited)
              c)
    ]

pub update_config-IsConsistent :
    (parse_url : Text → Option Url) (read : Text → Option UserConfig) (render : UserConfig → Text)
    (user : User) (p : UserConfigPatch) (db : Db)
    → IsConsistent db
    → IsConsistent (update_config parse_url read render user p db).1
unfolding update_config
update_config-IsConsistent parse_url read render user p db c =
    elim (Bool-cases (patch_fits parse_url p)) [
      | inr odd ↦ rw (odd, update_config) c
      | inl fine ↦ elim (Bool-cases (is_some (lookup user.id db.users))) [
        | inr missing ↦ rw (fine, missing, update_config) c
        | inl there ↦
            rw (fine, there, update_config)
              (change_user-IsConsistent user.id _ db (λ u. refl) (λ u. refl) c)
      ]
    ]

upsert_invitation-IsConsistent :
    (email token : Text) (expires : ℤ) (inviter : User) (db : Db)
    → IsSignedIn inviter db
    → IsConsistent db
    → IsConsistent (upsert_invitation email token expires inviter db).1
unfolding upsert_invitation
upsert_invitation-IsConsistent email token expires inviter db signed c =
    elim (Option-cases (find_first (is_for inviter.school_id email) db.invitations)) [
      | inl unknown ↦ elim (Bool-cases (is_token_taken db.next_id token db.invitations)) [
        | inl taken ↦ rw (unknown, taken, upsert_invitation) c
        | inr free ↦
            rw (unknown, free, upsert_invitation)
              (change_invitations-IsConsistent
                (append db.next_id (new_invitation email token expires inviter) db.invitations)
                (db.next_id + 1) db (omega arith)
                (append-Belong (λ (i : InvitationRow). i.school_id) db.schools db.next_id
                  (new_invitation email token expires inviter) db.invitations
                  (signed_in-IsStored inviter db c signed) c.invited)
                c)
      ]
      | inr ((k, i), known) ↦ elim (Bool-cases (is_token_taken k token db.invitations)) [
        | inl taken ↦ rw (known, taken, upsert_invitation) c
        | inr free ↦
            rw (known, free, upsert_invitation)
              (change_invitations-IsConsistent
                (modify k (renewed token expires inviter.id) db.invitations) db.next_id db
                (omega arith)
                (modify-Belong (λ (j : InvitationRow). j.school_id) db.schools k
                  (renewed token expires inviter.id) db.invitations (λ j. refl) c.invited)
                c)
      ]
    ]

pub invite-IsConsistent :
    (lower : Text → Text) (ttl_hours : ℕ) (now : ℤ) (token : Text) (user : User) (typed : Text)
    (db : Db)
    → IsSignedIn user db
    → IsConsistent db
    → IsConsistent (invite lower ttl_hours now token user typed db).1
unfolding invite
invite-IsConsistent lower ttl_hours now token user typed db signed c =
    elim (Bool-cases (email_used (lower (trim typed)) db.users)) [
      | inl taken ↦ rw (taken, invite) c
      | inr fresh ↦
          rw (fresh, invite)
            (upsert_invitation-IsConsistent (lower (trim typed)) token
              (now +ℤ pos (ttl_hours * hour_ms)) user db signed c)
    ]

pub revoke_sessions-IsConsistent :
    (user : User) (db : Db) → IsConsistent db → IsConsistent (revoke_sessions user db).1
unfolding revoke_sessions
revoke_sessions-IsConsistent user db c = elim (Bool-cases (is_some (lookup user.id db.users))) [
  | inr missing ↦ rw (missing, revoke_sessions) c
  | inl there ↦
      rw (there, revoke_sessions)
        (change_user-IsConsistent user.id revoked db (λ u. refl) (λ u. refl) c)
]
