-- ===== src/Notifications.antt =====
-- src/notifications/notifications.service.ts: what a school is told, as a row for each recipient, and the push
-- about an announcement. The push service is a parameter: the messages it is given, and the tokens it
-- says are dead, or nothing where it throws.
pub mod Told
use tutor_app_back.Push.{PushMessage}
use tutor_app_back.Push.Devices.{tokens_for, retire}
use tutor_app_back.Invitations.{accept}
use mathlib.Core.Option
use tutor_app_back.Prelude.{
  ℕ, ◌+◌, Bool, not, ◌&&◌, Option, none, some, List, [], ◌∷◌, map, ◌==◌, if◌then◌else◌, is_some,
  length,
}
use tutor_app_back.Prelude.Int.{ℤ, pos, ◌-ℤ◌}
use tutor_app_back.Prelude.Table.{Key, Table, lookup, modify, append, find_many, keys, map_rows}
use tutor_app_back.Model.{
  NotificationKind, admin_announcement, UserRow, User, PushTokenRow, NotificationRow, Db, Action,
  pure, gets, ◌>>=◌, ◌>>◌, write,
}
use tutor_app_back.Model.Text.{Text, ascii, trim}

-- The rows behind `list`, before their order and their limit.
unfoldable pub feed : User → Action (Table NotificationRow)
feed user = gets (λ db. find_many (λ n. n.recipient_id == user.id) db.notifications)

abbrev pub read_by : ℤ → User → NotificationRow → NotificationRow
read_by now user n =
    if n.recipient_id == user.id && not (is_some n.read_at)
    then record n { read_at = some now }
    else n

unfoldable pub mark_read : ℤ → User → Key → Action (Unit {0})
mark_read now user id =
    write (λ db. record db { notifications = modify id (read_by now user) db.notifications })

unfoldable pub mark_all_read : ℤ → User → Action (Unit {0})
mark_all_read now user =
    write (λ db. record db { notifications = map_rows (read_by now user) db.notifications })

-- `createMany`: one row for each recipient.
pub notify : NotificationKind → Option Text → Text → List Key → Db → Db
notify kind text person [] db = db
notify kind text person (k ∷ ks) db = notify kind text person ks (record db {
  notifications =
      append db.next_id
        (record {
          kind = kind;
          text = text;
          person_name = person;
          read_at = none;
          recipient_id = k;
        })
        db.notifications;
  next_id = db.next_id + 1;
})

-- The members of a school.
abbrev pub members_of : Key → Db → List Key
members_of school db = keys (find_many (λ (u : UserRow). u.school_id == school) db.users)

abbrev pub is_colleague : User → Key → UserRow → Bool
is_colleague newcomer k u = u.school_id == newcomer.school_id && not (k == newcomer.id)

-- The members of a newcomer's school but the newcomer.
abbrev pub colleagues_of : User → Table UserRow → List Key
colleagues_of newcomer [] = []
colleagues_of newcomer ((k, u) ∷ t) =
    if is_colleague newcomer k u then k ∷ colleagues_of newcomer t else colleagues_of newcomer t

abbrev pub announcement_to : Text → Text → PushTokenRow → PushMessage
announcement_to school text device = record {
  to = device.token;
  title = school;
  body = text;
  payload = (ascii "kind", ascii "ADMIN_ANNOUNCEMENT") ∷ [];
  channel_id = some (ascii "announcements");
}

module _ (push : List PushMessage → Option (List Text)) where
  -- What throws on the way is caught, and delivers nothing.
  unfoldable pub push_to : Text → Text → List PushTokenRow → Action ℤ
  unfolding retire
  push_to school text [] = pure (pos 0)
  push_to school text (d ∷ ds) = elim (push (map (announcement_to school text) (d ∷ ds))) [
    | none ↦ pure (pos 0)
    | some retired ↦ (retire retired >> pure (pos (length (d ∷ ds)) -ℤ pos (length retired)))
  ]

  unfoldable pub push_announcement : List Key → Text → Text → Action ℤ
  unfolding tokens_for push_to
  push_announcement recipients school text = do
    devices ← tokens_for recipients
    push_to school text devices

  -- The recipients and the devices reached.
  unfoldable pub announce : User → Text → Action (ℕ × ℤ)
  unfolding push_announcement notify trim
  announce sender text = do
    recipients ← gets (members_of sender.school_id)
    school ← gets (λ db. lookup sender.school_id db.schools)
    write (notify admin_announcement (some (trim text)) sender.name recipients)
    delivered ←
        push_announcement recipients (elim school [ none ↦ sender.name | some s ↦ s.name ])
          (trim text)
    pure (length recipients, delivered)

unfoldable pub tutor_joined : User → Action ℕ
unfolding notify
tutor_joined newcomer = do
  recipients ← gets (λ db. colleagues_of newcomer db.users)
  write (notify NotificationKind.tutor_joined none newcomer.name recipients)
  pure (length recipients)

-- `accept` of src/invitations/invitations.service.ts with the notification that follows it.
unfoldable pub accept_and_tell : ℤ → Text → Text → Text → Action User
unfolding accept tutor_joined
accept_and_tell now token name hash = do
  user ← accept now token name hash
  tutor_joined user
  pure user
