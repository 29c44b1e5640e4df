-- ===== src/Meetings/Accounts/Tokens.antt =====
-- `accessTokenFor` and `createRoom` of src/meetings/meeting-accounts.service.ts: a usable token, refreshed
-- when the cached one runs out, and the room of a lesson.
use tutor_app_back.Meetings.Cipher.{Crypto, encrypt, decrypt}
use tutor_app_back.Meetings.Accounts.{
  is_date, Config, Credentials, Grant, by_refresh, TokenPayload, TokenSet, exchange_with,
  decrypt_with, is_account, is_connectable, expiry_slack_ms,
}
use tutor_app_back.Prelude.{ℕ, Bool, false, not, Option, none, some, List, if◌then◌else◌, is_some}
use tutor_app_back.Prelude.Int.{ℤ, pos, ◌+ℤ◌, ◌-ℤ◌, ltb_ℤ}
use tutor_app_back.Prelude.Table.{Key, lookup, modify, erase, find_first}
use tutor_app_back.Model.{
  MeetingProvider, User, MeetingAccountRow, invalid_date, record_missing, ok, Action, pure, throw,
  ◌>>=◌, ◌>>◌,
}
use tutor_app_back.Model.Text.{Text}

-- `account.accessToken === null ? null : this.decrypt(account.accessToken)`
abbrev pub cached_token : Option Crypto → MeetingAccountRow → Option Text
cached_token crypto a = elim (a.access_token) [ none ↦ none | some t ↦ decrypt_with crypto t ]

-- The time at which a token runs out is known, and more than the slack away.
abbrev pub is_fresh : ℤ → Option ℤ → Bool
is_fresh now none = false
is_fresh now (some e) = ltb_ℤ now (e -ℤ pos expiry_slack_ms)

-- `forget`, which ignores a row that is not there
abbrev pub forget : Key → Action (Unit {0})
forget id db = (ok tt, record db { meeting_accounts = erase id db.meeting_accounts })

-- The row after a refresh: a provider that sends no new refresh token keeps the old one valid.
abbrev pub renewed : Crypto → List ℕ → List ℕ → TokenSet → ℤ → MeetingAccountRow → MeetingAccountRow
renewed crypto iv iv' tokens now a = record a {
  refresh_token = elim (tokens.refresh) [ none ↦ a.refresh_token | some t ↦ encrypt crypto iv t ];
  access_token = some (encrypt crypto iv' tokens.access);
  access_token_expires_at = some (now +ℤ tokens.expires_in);
}

-- `meetingAccount.update`, which fails where there is no such row
abbrev pub update_account : Key → (MeetingAccountRow → MeetingAccountRow) → Action (Unit {0})
update_account id f db =
    if is_some (lookup id db.meeting_accounts)
    then (ok tt, record db { meeting_accounts = modify id f db.meeting_accounts })
    else throw record_missing db

module _ (c : Config) (ask : MeetingProvider → Credentials → Grant → Option TokenPayload) (now : ℤ)
    (iv iv' : List ℕ) where
  -- The part behind a refresh token that could be read. The time goes to the database last.
  unfoldable pub refresh_account : Key → MeetingAccountRow → Crypto → Text → Action (Option Text)
  unfolding is_date
  refresh_account id a crypto refresh db =
      elim (exchange_with ask c a.provider (by_refresh refresh)) [
        | none ↦ (forget id >> pure none) db
        | some tokens ↦
            if not (is_date (now +ℤ tokens.expires_in))
            then throw invalid_date db
            else (update_account id (renewed crypto iv iv' tokens now) >> pure (some tokens.access))
                db
      ]

  -- The part behind a cached token that is missing or runs out. Without a cipher nothing can be read.
  unfoldable pub refresh_token_for : Key → MeetingAccountRow → Action (Option Text)
  unfolding refresh_account
  refresh_token_for id a db = elim (c.crypto) [
    | none ↦ (forget id >> pure none) db
    | some crypto ↦ elim (decrypt crypto a.refresh_token) [
      | none ↦ (forget id >> pure none) db
      | some refresh ↦ refresh_account id a crypto refresh db
    ]
  ]

  unfoldable pub access_token_for : Key → MeetingAccountRow → Action (Option Text)
  unfolding refresh_token_for
  access_token_for id a db = elim (cached_token c.crypto a) [
    | none ↦ refresh_token_for id a db
    | some t ↦
        if is_fresh now a.access_token_expires_at
        then (ok (some t), db)
        else refresh_token_for id a db
  ]

  -- The room that the provider makes with a token; nothing where the call throws.
  unfoldable pub create_room :
      (MeetingProvider → Text → Option Text) → User → MeetingProvider → Action (Option Text)
  unfolding access_token_for
  create_room make_room user p db =
      if not (is_connectable p)
      then (ok none, db)
      else (elim (find_first (is_account user.id p) db.meeting_accounts) [
        | none ↦ (ok none, db)
        | some (id, a) ↦
            (access_token_for id a >>= λ token. elim token [
              | none ↦ pure none
              | some t ↦ pure (make_room p t)
            ])
              db
      ])
