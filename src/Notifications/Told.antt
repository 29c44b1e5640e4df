-- ===== src/Notifications/Told.antt =====
-- Who is told what by src/notifications/notifications.service.ts.
use tutor_app_back.Push.{PushMessage}
use tutor_app_back.Push.Devices.{is_among, tokens_for, retire}
use tutor_app_back.Notifications.{retire, tokens_for, PushMessage}
use tutor_app_back.Notifications.{announce}
use tutor_app_back.Prelude.{
  ℕ, ◌+◌, ◌≡◌, ◌⊎◌, Bool, false, not, Option, none, some, List, [], ◌∷◌, ◌++◌, map, ◌==◌, length,
  filter, once, times,
}
use tutor_app_back.Prelude.Int.{ℤ}
use tutor_app_back.Prelude.Table.{Key, Table, lookup}
use tutor_app_back.Model.{
  NotificationKind, admin_announcement, UserRow, User, PushTokenRow, NotificationRow, Db, ok,
}
use tutor_app_back.Model.Text.{Text, ascii, trim}

-- The rows under the ids from this one on.
abbrev pub issued : ℕ → List NotificationRow → Table NotificationRow
issued n [] = []
issued n (r ∷ rs) = (n, r) ∷ issued (n + 1) rs

-- An unread notification of this user.
abbrev pub note_for : NotificationKind → Option Text → Text → Key → NotificationRow
note_for kind text person k = record {
  kind = kind;
  text = text;
  person_name = person;
  read_at = none;
  recipient_id = k;
}

-- A user is stored, and of this school.
abbrev pub belongs : Key → Key → Table UserRow → Bool
belongs school k t = elim (lookup k t) [ none ↦ false | some u ↦ u.school_id == school ]

-- The database without the devices of these tokens.
abbrev pub without : List Text → Db → Db
without dead db = record db {
  push_tokens = filter (λ r. not (is_among dead r.token)) db.push_tokens;
}

-- What a device is sent: the text under the name of the school, on the channel of announcements.
abbrev pub pushed_to : Text → Text → PushTokenRow → PushMessage
pushed_to title body r = record {
  to = r.token;
  title = title;
  body = body;
  payload = (ascii "kind", ascii "ADMIN_ANNOUNCEMENT") ∷ [];
  channel_id = some (ascii "announcements");
}

module _ (push : List PushMessage → Option (List Text)) (sender : User) (text : Text)
    (db : Db) where
  abbrev pub title : Text
  title = elim (lookup sender.school_id db.schools) [ none ↦ sender.name | some s ↦ s.name ]

  -- The devices of the school's members.
  abbrev pub devices : List PushTokenRow
  devices = filter (λ r. belongs sender.school_id r.user_id db.users) db.push_tokens

  -- What an announcement does: it returns; each member of the sender's school, and nobody else, has one more row, unread,
  -- with the trimmed text and the sender's name; and apart from that only devices are gone, those that the push
  -- service called dead when it was sent the message for the devices of the members.
  abbrev pub Announced : Type 0
  Announced =
      (told : List Key) × (dead : List Text) × (reached : ℤ) × (next : ℕ) × ((k : Key)
        → times k told ≡ once (belongs sender.school_id k db.users))
      × ((dead ≡ []) ⊎ (push (map (pushed_to title (trim text)) devices) ≡ some dead))
      × (announce push sender text db ≡ (
        ok (length told, reached),
        record db {
          notifications =
              db.notifications
              ++ issued db.next_id
                  (map (note_for admin_announcement (some (trim text)) sender.name) told);
          next_id = next;
          push_tokens = filter (λ r. not (is_among dead r.token)) db.push_tokens;
        },
      ))
