-- ===== src/Invitations.antt =====
-- src/invitations/invitations.service.ts: inviting a tutor, and the link that is redeemed once. The random
-- token, the hash of a password and the lower-casing of an address are arguments; the mail and the session
-- after the account exists leave no row, and the news for the colleagues is in Notifications.
pub mod Once
pub mod Redeeming
use tutor_app_back.Prelude.{
  ℕ, ◌+◌, ◌*◌, Bool, false, not, ◌&&◌, ◌||◌, Option, none, some, List, [], ◌∷◌, ◌==◌, if◌then◌else◌,
  is_some,
}
use tutor_app_back.Prelude.Int.{ℤ, pos, ◌+ℤ◌, ltb_ℤ}
use tutor_app_back.Prelude.Table.{Key, Table, lookup, modify, erase, append, find_first, find_many}
use tutor_app_back.Model.{
  UserRole, tutor, UserRow, User, InvitationRow, email_taken, invitation_not_found,
  invitation_invalid, invitation_used, unique_violation, ok, Action, pure, throw, gets, transaction,
  ◌>>=◌, ◌>>◌, throw_if,
}
use tutor_app_back.Model.Text.{Text, trim, text_eq, empty_config}

abbrev pub hour_ms : ℕ
hour_ms = 60 * 60 * 1000

abbrev pub email_used : Text → Table UserRow → Bool
email_used email t = is_some (find_first (λ _ (u : UserRow). text_eq u.email email) t)

abbrev pub is_for : Key → Text → Key → InvitationRow → Bool
is_for school email k i = i.school_id == school && text_eq i.email email

-- The unique index on tokens, over all rows but one.
abbrev pub is_token_taken : Key → Text → Table InvitationRow → Bool
is_token_taken id token t =
    is_some (find_first (λ k (i : InvitationRow). not (k == id) && text_eq i.token token) t)

abbrev pub renewed : Text → ℤ → Key → InvitationRow → InvitationRow
renewed token expires inviter i = record i {
  token = token;
  expires_at = expires;
  accepted_at = none;
  invited_by_id = inviter;
}

abbrev pub new_invitation : Text → Text → ℤ → User → InvitationRow
new_invitation email token expires inviter = record {
  email = email;
  token = token;
  role = tutor;
  expires_at = expires;
  accepted_at = none;
  school_id = inviter.school_id;
  invited_by_id = inviter.id;
}

-- `invitation.upsert` on the school and the address
unfoldable pub upsert_invitation : Text → Text → ℤ → User → Action InvitationRow
upsert_invitation email token expires inviter db =
    elim (find_first (is_for inviter.school_id email) db.invitations) [
      | some (k, i) ↦ if is_token_taken k token db.invitations then throw unique_violation db else (
        ok (renewed token expires inviter.id i),
        record db { invitations = modify k (renewed token expires inviter.id) db.invitations },
      )
      | none ↦
          if is_token_taken db.next_id token db.invitations then throw unique_violation db else (
            ok (new_invitation email token expires inviter),
            record db {
              invitations =
                  append db.next_id (new_invitation email token expires inviter) db.invitations;
              next_id = db.next_id + 1;
            },
          )
    ]

module _ (lower : Text → Text) (ttl_hours : ℕ) where
  unfoldable pub invite : ℤ → Text → User → Text → Action InvitationRow
  unfolding upsert_invitation
  invite now token inviter typed = do
    let email = lower (trim typed)
    taken ← gets (λ db. email_used email db.users)
    throw_if taken email_taken
    upsert_invitation email token (now +ℤ pos (ttl_hours * hour_ms)) inviter

abbrev pub is_own : Key → Option InvitationRow → Bool
is_own school none = false
is_own school (some i) = i.school_id == school

unfoldable pub revoke : User → Key → Action (Unit {0})
revoke user id db =
    if is_own user.school_id (lookup id db.invitations)
    then (ok tt, record db { invitations = erase id db.invitations })
    else throw invitation_not_found db

-- `!invitation || invitation.acceptedAt || invitation.expiresAt < new Date()`
abbrev pub is_unusable : ℤ → InvitationRow → Bool
is_unusable now i = is_some i.accepted_at || ltb_ℤ i.expires_at now

unfoldable pub find_usable : ℤ → Text → Action (Key × InvitationRow)
find_usable now token db =
    elim (find_first (λ _ (i : InvitationRow). text_eq i.token token) db.invitations) [
      | none ↦ throw invitation_invalid db
      | some (k, i) ↦ if is_unusable now i then throw invitation_invalid db else (ok (k, i), db)
    ]

-- `accepted_at` is nothing in the row under this key, where there is one.
abbrev pub is_open : Option InvitationRow → Bool
is_open none = false
is_open (some i) = not (is_some i.accepted_at)

abbrev pub accepted : ℤ → InvitationRow → InvitationRow
accepted now i = record i { accepted_at = some now }

-- The conditional update that only one redemption can win.
unfoldable pub claim : ℤ → Key → Action (Unit {0})
claim now k db =
    if is_open (lookup k db.invitations)
    then (ok tt, record db { invitations = modify k (accepted now) db.invitations })
    else throw invitation_used db

-- `user.create` and the unique index on addresses
unfoldable pub insert_user : UserRow → Action User
insert_user u db = if email_used u.email db.users then throw unique_violation db else (
  ok (record { id = db.next_id; row = u }),
  record db { users = append db.next_id u db.users; next_id = db.next_id + 1 },
)

abbrev pub joining : Text → Text → InvitationRow → UserRow
joining name hash i = record {
  email = i.email;
  password_hash = hash;
  name = trim name;
  role = i.role;
  school_id = i.school_id;
  token_version = 0;
  config = empty_config;
}

-- The transaction of `accept`, which runs some time after the invitation was read.
unfoldable pub redeem : ℤ → Text → Text → Key × InvitationRow → Action User
redeem now name hash (k, i) = transaction (claim now k >> insert_user (joining name hash i))

unfoldable pub accept : ℤ → Text → Text → Text → Action User
unfolding find_usable redeem
accept now token name hash = do found ← find_usable now token; redeem now name hash found

pub data InvitationStatus : Type 0 where
  accepted_already expired pending_still : InvitationStatus

-- The status that `toPublic` shows.
abbrev pub status_of : ℤ → InvitationRow → InvitationStatus
status_of now i =
    if is_some i.accepted_at
    then accepted_already
    else (if ltb_ℤ i.expires_at now then expired else pending_still)

-- What `list` shows of an invitation, and the token behind its link, which only a pending one carries.
pub record ShownInvitation : Type 0 where
  pub id : Key
  pub email : Text
  pub role : UserRole
  pub status : InvitationStatus
  pub link_token : Option Text

abbrev pub link_for : InvitationStatus → Text → Option Text
link_for pending_still token = some token
link_for accepted_already token = none
link_for expired token = none

pub show_all : ℤ → Table InvitationRow → List ShownInvitation
show_all now [] = []
show_all now ((k, i) ∷ t) =
    record {
      id = k;
      email = i.email;
      role = i.role;
      status = status_of now i;
      link_token = link_for (status_of now i) i.token;
    }
    ∷ show_all now t

unfoldable pub list : ℤ → User → Action (List ShownInvitation)
unfolding show_all
list now user =
    gets (λ db. show_all now (find_many (λ i. i.school_id == user.school_id) db.invitations))

-- `describe`: the address, before the names of the school and the inviter are joined.
unfoldable pub describe : ℤ → Text → Action InvitationRow
unfolding find_usable
describe now token = do found ← find_usable now token; pure found.1
