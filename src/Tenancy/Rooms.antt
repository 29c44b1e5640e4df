-- ===== src/Tenancy/Rooms.antt =====
-- A room for a lesson, src/meetings/meeting-accounts.service.ts and `meetingFor` of src/lessons/lessons.service.ts, writes the
-- connected accounts and nothing else.
use tutor_app_back.Meetings.Cipher.{decrypt, Crypto}
use tutor_app_back.Lessons.{Outside, meeting_with, meeting_for, room_request, choose_link}
use tutor_app_back.Meetings.Providers.{MeetingSettings}
use tutor_app_back.Meetings.Accounts.Tokens.{
  create_room, access_token_for, refresh_token_for, refresh_account, renewed, update_account,
  is_fresh, cached_token,
}
use tutor_app_back.Meetings.Accounts.{
  Config, Credentials, Grant, TokenPayload, exchange_with, by_refresh, is_connectable, is_account,
  is_date,
}
use tutor_app_back.Users.{parse_user_config}
use tutor_app_back.Prelude.{
  ℕ, ◌≡◌, refl, sym, ap, ◌∙◌, inl, inr, Option, none, some, List, arith, Bool-cases, Option-cases,
  is_some,
}
use tutor_app_back.Prelude.Int.{ℤ, ◌+ℤ◌}
use tutor_app_back.Prelude.Table.{Key, Table, lookup, modify, erase, find_first}
use tutor_app_back.Model.{
  MeetingProvider, User, MeetingAccountRow, Db, Action, pure, ◌>>=◌, Action-cases, >>=-ok, >>=-err,
}
use tutor_app_back.Model.Text.{Text}

-- All other tables are those of before.
abbrev pub OnlyAccounts : Db → Db → Type 0
OnlyAccounts db d = (rows : Table MeetingAccountRow) × (d ≡ record db { meeting_accounts = rows })

update_account-OnlyAccounts :
    (id : Key) (f : MeetingAccountRow → MeetingAccountRow) (db : Db)
    → OnlyAccounts db (update_account id f db).1
update_account-OnlyAccounts id f db = elim (Bool-cases (is_some (lookup id db.meeting_accounts))) [
  | inl there ↦ (modify id f db.meeting_accounts, ground (arith, there))
  | inr gone ↦ (db.meeting_accounts, ground (arith, gone))
]

-- What follows and writes nothing.
then-OnlyAccounts :
    {A B : Type 0} (m : Action A) (f : A → Action B) (db : Db)
    → ((a : A) (d : Db) → (f a d).1 ≡ d)
    → OnlyAccounts db (m db).1
    → OnlyAccounts db ((m >>= f) db).1
then-OnlyAccounts m f db reads (rows, e) = elim (Action-cases m db) [
  | inl (x, d, h) ↦ (rows, ap (λ p. p.1) (>>=-err m f db d h) ∙ (sym (ap (λ p. p.1) h) ∙ e))
  | inr (a, d, h) ↦
      (rows, ap (λ p. p.1) (>>=-ok m f db d h) ∙ (reads a d ∙ (sym (ap (λ p. p.1) h) ∙ e)))
]

module _ (c : Config) (ask : MeetingProvider → Credentials → Grant → Option TokenPayload) (now : ℤ)
    (iv iv' : List ℕ) (id : Key) (a : MeetingAccountRow) (db : Db) where
  refresh_account-OnlyAccounts :
      (crypto : Crypto) (refresh : Text)
      → OnlyAccounts db (refresh_account c ask now iv iv' id a crypto refresh db).1
  unfolding refresh_account
  refresh_account-OnlyAccounts crypto refresh =
      elim (Option-cases (exchange_with ask c a.provider (by_refresh refresh))) [
        | inl refused ↦ (erase id db.meeting_accounts, rw (refused, refresh_account) refl)
        | inr (tokens, granted) ↦ elim (Bool-cases (is_date (now +ℤ tokens.expires_in))) [
          | inr undated ↦ (db.meeting_accounts, rw (granted, undated, refresh_account) refl)
          | inl dated ↦
              let (rows, e) =
                then-OnlyAccounts (update_account id (renewed crypto iv iv' tokens now))
                  (λ _. pure (some tokens.access)) db (λ _ _. refl)
                  (update_account-OnlyAccounts id (renewed crypto iv iv' tokens now) db) in
              (rows, rw (granted, dated, refresh_account) e)
        ]
      ]

  refresh_token_for-OnlyAccounts : OnlyAccounts db (refresh_token_for c ask now iv iv' id a db).1
  unfolding refresh_token_for
  refresh_token_for-OnlyAccounts = elim (Option-cases (c.crypto)) [
    | inl none_set ↦ (erase id db.meeting_accounts, rw (none_set, refresh_token_for) refl)
    | inr (crypto, set) ↦ elim (Option-cases (decrypt crypto a.refresh_token)) [
      | inl unreadable ↦ (
        erase id db.meeting_accounts,
        rw (set, refresh_token_for) (rw (unreadable, refresh_token_for) refl),
      )
      | inr (refresh, read) ↦
          let (rows, e) = refresh_account-OnlyAccounts crypto refresh in
          let here : refresh_token_for c ask now iv iv' id a db
              ≡ refresh_account c ask now iv iv' id a crypto refresh db =
            ground (arith, set, read) in
          (rows, ap (λ p. p.1) here ∙ e)
    ]
  ]

  access_token_for-OnlyAccounts : OnlyAccounts db (access_token_for c ask now iv iv' id a db).1
  unfolding access_token_for
  access_token_for-OnlyAccounts = elim (Option-cases (cached_token c.crypto a)) [
    | inl empty ↦
        let (rows, e) = refresh_token_for-OnlyAccounts in (rows, rw (empty, access_token_for) e)
    | inr (t, cached) ↦ elim (Bool-cases (is_fresh now a.access_token_expires_at)) [
      | inl fresh ↦ (db.meeting_accounts, rw (cached, fresh, access_token_for) refl)
      | inr stale ↦
          let (rows, e) = refresh_token_for-OnlyAccounts in
          (rows, rw (cached, stale, access_token_for) e)
    ]
  ]

abbrev room_with :
    (MeetingProvider → Text → Option Text) → MeetingProvider → Option Text → Action (Option Text)
room_with make_room p token = elim token [ none ↦ pure none | some t ↦ pure (make_room p t) ]

room_with-reads :
    (make_room : MeetingProvider → Text → Option Text) (p : MeetingProvider) (token : Option Text)
    (d : Db)
    → (room_with make_room p token d).1 ≡ d
room_with-reads make_room p none d = refl
room_with-reads make_room p (some t) d = refl

module _ (o : Outside) (user : User) where
  create_room-OnlyAccounts :
      (make_room : MeetingProvider → Text → Option Text) (p : MeetingProvider) (db : Db)
      → OnlyAccounts db
          (create_room o.config o.ask o.now o.vector o.second_vector make_room user p db).1
  unfolding create_room
  create_room-OnlyAccounts make_room p db = elim (Bool-cases (is_connectable p)) [
    | inr other_provider ↦ (db.meeting_accounts, ground (arith, other_provider))
    | inl fits ↦ elim (Option-cases (find_first (is_account user.id p) db.meeting_accounts)) [
      | inl unknown ↦ (db.meeting_accounts, ground (arith, fits, unknown))
      | inr ((id, a), known) ↦
          let (rows, e) =
            then-OnlyAccounts (access_token_for o.config o.ask o.now o.vector o.second_vector id a)
              (room_with make_room p) db (room_with-reads make_room p)
              (access_token_for-OnlyAccounts o.config o.ask o.now o.vector o.second_vector id a
                db) in
          (rows, rw (fits, create_room) (rw (known, create_room) e))
    ]
  ]

  meeting_with-OnlyAccounts :
      (subject : Option Key) (starts_at : ℤ) (minutes : ℕ) (s : MeetingSettings) (db : Db)
      → OnlyAccounts db (meeting_with o user subject starts_at minutes s db).1
  unfolding meeting_with
  meeting_with-OnlyAccounts subject starts_at minutes s db =
      then-OnlyAccounts
        (create_room o.config o.ask o.now o.vector o.second_vector
          (o.make_room (room_request user subject starts_at minutes db)) user s.provider)
        (λ made. pure (choose_link o s made)) db (λ _ _. refl)
        (create_room-OnlyAccounts (o.make_room (room_request user subject starts_at minutes db))
          s.provider db)

  pub meeting_for-OnlyAccounts :
      (subject : Option Key) (starts_at : ℤ) (minutes : ℕ) (db : Db)
      → OnlyAccounts db (meeting_for o user subject starts_at minutes db).1
  unfolding meeting_for
  meeting_for-OnlyAccounts subject starts_at minutes db =
      elim (Option-cases ((parse_user_config o.read_config user.config).meeting)) [
        | inl unset ↦ (db.meeting_accounts, rw (unset, meeting_for) refl)
        | inr (s, set) ↦
            let (rows, e) = meeting_with-OnlyAccounts subject starts_at minutes s db in
            (rows, rw (set, meeting_for) e)
      ]
