-- ===== src/Push/Devices.antt =====
-- src/push/devices.service.ts: the devices that notifications are pushed to.

-- `where: { token }`

use tutor_app_back.Prelude.{
  Bool, not, ◌&&◌, List, [], ◌∷◌, ◌==◌, if◌then◌else◌, filter, any, contains,
}
use tutor_app_back.Prelude.Int.{ℤ}
use tutor_app_back.Prelude.Table.{Key}
use tutor_app_back.Model.{DevicePlatform, User, PushTokenRow, Action, gets, write}
use tutor_app_back.Model.Text.{Text, text_eq}

abbrev pub holds_token : Text → PushTokenRow → Bool
holds_token token r = text_eq r.token token

abbrev pub reassigned : Key → DevicePlatform → ℤ → PushTokenRow → PushTokenRow
reassigned owner platform now r = record r {
  user_id = owner;
  platform = platform;
  last_seen_at = now;
}

-- `upsert` on the unique token, at a time; a new row has the time for its default.
abbrev pub put_device : ℤ → Key → Text → DevicePlatform → List PushTokenRow → List PushTokenRow
put_device now owner token platform [] =
    record { token = token; platform = platform; last_seen_at = now; user_id = owner } ∷ []
put_device now owner token platform (r ∷ rows) =
    if holds_token token r
    then reassigned owner platform now r ∷ rows
    else r ∷ put_device now owner token platform rows

unfoldable pub register : ℤ → User → Text → DevicePlatform → Action (Unit {0})
register now user token platform =
    write (λ db. record db { push_tokens = put_device now user.id token platform db.push_tokens })

unfoldable pub unregister : User → Text → Action (Unit {0})
unregister user token = write (λ db. record db {
  push_tokens = filter (λ r. not (holds_token token r && r.user_id == user.id)) db.push_tokens;
})

unfoldable pub tokens_for : List Key → Action (List PushTokenRow)
tokens_for users = gets (λ db. filter (λ r. contains r.user_id users) db.push_tokens)

-- `tokens.includes(token)`
abbrev pub is_among : List Text → Text → Bool
is_among tokens token = any (λ t. text_eq t token) tokens

unfoldable pub retire : List Text → Action (Unit {0})
retire tokens =
    write
      (λ db. record db { push_tokens = filter (λ r. not (is_among tokens r.token)) db.push_tokens })
