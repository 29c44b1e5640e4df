-- ===== src/Meetings/Accounts/Renewal.antt =====
-- A connection of src/meetings/meeting-accounts.service.ts is used, renewed or dropped, and never in the way
-- of a booking.
use tutor_app_back.Meetings.Cipher.{Crypto, encrypt, decrypt, is_blank}
use tutor_app_back.Meetings.Cipher.RoundTrip.{IsSound, is_well_formed, decrypt-encrypt}
use tutor_app_back.Meetings.Accounts.{
  Config, Credentials, Grant, TokenPayload, TokenSet, exchange_with, by_refresh, credentials_for,
  decrypt_with, is_date,
}
use tutor_app_back.Meetings.Accounts.Tokens.{
  cached_token, is_fresh, renewed, update_account, refresh_account, refresh_token_for,
  access_token_for,
}
use tutor_app_back.Prelude.{
  ℕ, ◌≡◌, refl, sym, ap, ◌∙◌, ◌⊎◌, inl, inr, true, false, Option, none, some, List, arith,
  Bool-cases, Option-cases, get_or,
}
use tutor_app_back.Prelude.Int.{ℤ, pos, ◌+ℤ◌}
use tutor_app_back.Prelude.Table.{
  Key, lookup, modify, erase, lookup-modify, IsKeyed, lookup-erase_self,
}
use tutor_app_back.Model.{
  MeetingProvider, MeetingAccountRow, Db, invalid_date, Result, ok, err, pure, >>=-ok,
}
use tutor_app_back.Model.Text.{Text}

module _ (c : Config) (ask : MeetingProvider → Credentials → Grant → Option TokenPayload) (now : ℤ)
    (iv iv' : List ℕ) (id : Key) (a : MeetingAccountRow) (db : Db) where
  -- There is no stored token that is good for more than the slack.
  abbrev pub Stale : Type 0
  Stale = (cached_token c.crypto a ≡ none) ⊎ (is_fresh now a.access_token_expires_at ≡ false)

  -- What the provider answers for the stored refresh token.
  abbrev pub Asked : TokenPayload → Type 0
  Asked payload =
      (refresh : Text) × (k : Credentials) × (decrypt_with c.crypto a.refresh_token ≡ some refresh)
      × (credentials_for c a.provider ≡ some k)
      × (ask a.provider k (by_refresh refresh) ≡ some payload)

  -- When a token of this answer runs out.
  abbrev pub runs_out : TokenPayload → ℤ
  runs_out payload = now +ℤ get_or payload.expires_in (pos 3600000)

  -- The stored refresh token cannot be read, the provider is not set up, it refuses, or its answer has no token.
  abbrev pub NoGrant : Type 0
  NoGrant =
      (decrypt_with c.crypto a.refresh_token ≡ none)
      ⊎ ((credentials_for c a.provider ≡ none)
          ⊎ (((refresh : Text) × (k : Credentials) × (decrypt_with c.crypto a.refresh_token
                  ≡ some refresh)
                × (credentials_for c a.provider ≡ some k)
                × (ask a.provider k (by_refresh refresh) ≡ none))
              ⊎ ((payload : TokenPayload) × Asked payload × (payload.access_token ≡ none))))

  -- The connection cannot be used and is gone.
  abbrev pub Dropped : Result (Option Text) × Db → Type 0
  Dropped p = Stale × NoGrant × (p.0 ≡ ok none) × (lookup id p.1.meeting_accounts ≡ none)

  -- The token that the provider sent is returned and stored, encrypted, with the time at which it runs out; the
  -- refresh token is the one that it sent, encrypted, or else the one from before.
  abbrev pub Renewed : Result (Option Text) × Db → Type 0
  Renewed p =
      Stale
      × ((crypto : Crypto) × (payload : TokenPayload) × (t : Text) × (c.crypto ≡ some crypto)
          × Asked payload
          × (payload.access_token ≡ some t)
          × (p.0 ≡ ok (some t))
          × (lookup id p.1.meeting_accounts
              ≡ some (record a {
                refresh_token = elim (payload.refresh_token) [
                  | none ↦ a.refresh_token
                  | some r ↦ encrypt crypto iv r
                ];
                access_token = some (encrypt crypto iv' t);
                access_token_expires_at = some (runs_out payload);
              })))

  -- The provider sent a token that runs out at no time that a date holds; the call throws and writes nothing.
  abbrev pub Undated : Result (Option Text) × Db → Type 0
  Undated p =
      Stale
      × ((payload : TokenPayload) × Asked payload × (is_date (runs_out payload) ≡ false))
      × (p ≡ (err invalid_date, db))

  -- The stored token is returned, which is good for more than the slack, and nothing is written.
  abbrev pub Cached : Result (Option Text) × Db → Type 0
  Cached p =
      (t : Text) × (cached_token c.crypto a ≡ some t)
      × (is_fresh now a.access_token_expires_at ≡ true)
      × (p ≡ (ok (some t), db))

  -- The answer behind a renewal.
  abbrev Granted : TokenSet → Type 0
  Granted tokens =
      (payload : TokenPayload) × Asked payload
      × (payload.access_token ≡ some tokens.access)
      × (tokens.refresh ≡ payload.refresh_token)
      × (tokens.expires_in ≡ get_or payload.expires_in (pos 3600000))

  exchange_with-cases :
      (crypto : Crypto) (refresh : Text)
      → c.crypto ≡ some crypto
      → decrypt_with c.crypto a.refresh_token ≡ some refresh
      → ((exchange_with ask c a.provider (by_refresh refresh) ≡ none) × NoGrant)
        ⊎ ((tokens : TokenSet) × (exchange_with ask c a.provider (by_refresh refresh) ≡ some tokens)
            × Granted tokens)
  exchange_with-cases crypto refresh here read =
      elim (Option-cases (credentials_for c a.provider)) [
        | inl unset ↦ inl (ground (arith, here, unset), inr (inl unset))
        | inr (k, set) ↦ elim (Option-cases (ask a.provider k (by_refresh refresh))) [
          | inl refused ↦
              inl (
                ground (arith, here, set, refused),
                inr (inr (inl (refresh, k, read, set, refused))),
              )
          | inr (payload, answered) ↦ elim (Option-cases (payload.access_token)) [
            | inl missing ↦ inl (
              ground (arith, here, set, answered, missing),
              inr (inr (inr (payload, (refresh, k, read, set, answered), missing))),
            )
            | inr (t, sent) ↦ inr (
              record {
                access = t;
                refresh = payload.refresh_token;
                expires_in = get_or payload.expires_in (pos 3600000);
              },
              ground (arith, here, set, answered, sent),
              (payload, (refresh, k, read, set, answered), sent, refl, refl),
            )
          ]
        ]
      ]

  module _ (stored : lookup id db.meeting_accounts ≡ some a)
      (keyed : IsKeyed db.meeting_accounts) where
    abbrev dropped : Result (Option Text) × Db
    dropped = (ok none, record db { meeting_accounts = erase id db.meeting_accounts })

    abbrev renewed_by : Crypto → TokenSet → Result (Option Text) × Db
    renewed_by crypto tokens = (
      ok (some tokens.access),
      record db {
        meeting_accounts = modify id (renewed crypto iv iv' tokens now) db.meeting_accounts;
      },
    )

    renewed_by-Renewed :
        (crypto : Crypto) (tokens : TokenSet)
        → Stale
        → c.crypto ≡ some crypto
        → Granted tokens
        → Renewed (renewed_by crypto tokens)
    renewed_by-Renewed crypto tokens stale here (payload, asked, sent, rotated, lasts) =
        let written : lookup id (modify id (renewed crypto iv iv' tokens now) db.meeting_accounts)
            ≡ some (renewed crypto iv iv' tokens now a) =
          ground (
            arith,
            stored,
            lookup-modify id id (renewed crypto iv iv' tokens now) db.meeting_accounts,
          ) in
        (
          stale,
          (
            crypto,
            payload,
            tokens.access,
            here,
            asked,
            sent,
            refl,
            written ∙ rw (rotated, lasts) refl,
          ),
        )

    update_account-ok :
        (f : MeetingAccountRow → MeetingAccountRow)
        → update_account id f db
          ≡ (ok tt, record db { meeting_accounts = modify id f db.meeting_accounts })
    update_account-ok f = rw stored refl

    -- Whatever comes of a renewal.
    abbrev Outcome : Result (Option Text) × Db → Type 0
    Outcome p = Renewed p ⊎ (Dropped p ⊎ Undated p)

    refresh_account-Outcome :
        (crypto : Crypto) (refresh : Text)
        → Stale
        → c.crypto ≡ some crypto
        → decrypt_with c.crypto a.refresh_token ≡ some refresh
        → Outcome (refresh_account c ask now iv iv' id a crypto refresh db)
    unfolding refresh_account
    refresh_account-Outcome crypto refresh stale here read =
        elim (exchange_with-cases crypto refresh here read) [
          | inl (failed, no_grant) ↦
              let e : refresh_account c ask now iv iv' id a crypto refresh db ≡ dropped =
                rw (failed, refresh_account) refl in
              rw e
                (inr (inl (stale, no_grant, refl, lookup-erase_self id db.meeting_accounts keyed)))
          | inr (tokens, answered, granted) ↦
              elim (Bool-cases (is_date (now +ℤ tokens.expires_in))) [
                | inr undated ↦
                    let e : refresh_account c ask now iv iv' id a crypto refresh db
                        ≡ (err invalid_date, db) =
                      rw (answered, undated, refresh_account) refl in
                    let (payload, asked, _, _, lasts) = granted in
                    rw e (
                      inr (
                        inr (
                          stale,
                          (payload, asked, ap (λ n. is_date (now +ℤ n)) (sym lasts) ∙ undated),
                          refl,
                        )))
                | inl dated ↦
                    let e : refresh_account c ask now iv iv' id a crypto refresh db
                        ≡ renewed_by crypto tokens =
                      rw (answered, dated, refresh_account)
                        (>>=-ok (update_account id (renewed crypto iv iv' tokens now))
                          (λ _. pure (some tokens.access)) db _
                          (update_account-ok (renewed crypto iv iv' tokens now))) in
                    rw e (inl (renewed_by-Renewed crypto tokens stale here granted))
              ]
        ]

    refresh_token_for-Outcome : Stale → Outcome (refresh_token_for c ask now iv iv' id a db)
    unfolding refresh_token_for
    refresh_token_for-Outcome stale =
        let gone : NoGrant → Outcome dropped = λ no_grant.
          inr (inl (stale, no_grant, refl, lookup-erase_self id db.meeting_accounts keyed)) in
        elim (Option-cases c.crypto) [
          | inl unset ↦
              let e : refresh_token_for c ask now iv iv' id a db ≡ dropped =
                rw (unset, refresh_token_for) refl in
              rw e (gone (inl (ground (arith, unset))))
          | inr (crypto, here) ↦ elim (Option-cases (decrypt crypto a.refresh_token)) [
            | inl unread ↦
                let e : refresh_token_for c ask now iv iv' id a db ≡ dropped =
                  rw (here, unread, refresh_token_for) refl in
                rw e (gone (inl (ground (arith, here, unread))))
            | inr (refresh, read) ↦
                let e : refresh_token_for c ask now iv iv' id a db
                    ≡ refresh_account c ask now iv iv' id a crypto refresh db =
                  ground (arith, here, read) in
                rw e
                  (refresh_account-Outcome crypto refresh stale here (ground (arith, here, read)))
          ]
        ]

    -- For a stored account whose id is listed once, `accessTokenFor` returns the cached token, which is good for more
    -- than a minute; or it asks the provider with the stored refresh token, stores what it sent and returns the new
    -- token; or, where there is no refresh token to be read or the provider grants none, it returns nothing and the
    -- account is gone; or it throws, only where the token runs out at no time that a date holds.
    pub access_token_for_outcome :
        let p = access_token_for c ask now iv iv' id a db in
        Cached p ⊎ (Renewed p ⊎ (Dropped p ⊎ Undated p))
    unfolding access_token_for
    access_token_for_outcome = elim (Option-cases (cached_token c.crypto a)) [
      | inl missing ↦
          let e : access_token_for c ask now iv iv' id a db
              ≡ refresh_token_for c ask now iv iv' id a db =
            rw (missing, access_token_for) refl in
          rw e (inr (refresh_token_for-Outcome (inl missing)))
      | inr (t, found) ↦ elim (Bool-cases (is_fresh now a.access_token_expires_at)) [
        | inl fresh ↦ inl (t, found, fresh, rw (found, fresh, access_token_for) refl)
        | inr stale ↦
            let e : access_token_for c ask now iv iv' id a db
                ≡ refresh_token_for c ask now iv iv' id a db =
              rw (found, stale, access_token_for) refl in
            rw e (inr (refresh_token_for-Outcome (inr stale)))
      ]
    ]

-- On a sound platform a token that was renewed, whose text is not empty and has no lone surrogate, is used again, without
-- the network and without a write, for as long as it has more than a minute.
pub renewed_token_is_used :
    (c : Config) (ask : MeetingProvider → Credentials → Grant → Option TokenPayload)
    (crypto : Crypto) (now later : ℤ) (iv iv' iv₂ iv₃ : List ℕ) (tokens : TokenSet) (id : Key)
    (a : MeetingAccountRow) (db : Db)
    → c.crypto ≡ some crypto
    → IsSound crypto
    → is_blank iv' ≡ false
    → is_blank tokens.access ≡ false
    → is_well_formed tokens.access ≡ true
    → is_fresh later (some (now +ℤ tokens.expires_in)) ≡ true
    → access_token_for c ask later iv₂ iv₃ id (renewed crypto iv iv' tokens now a) db
      ≡ (ok (some tokens.access), db)
unfolding access_token_for
renewed_token_is_used c ask crypto now later iv iv' iv₂ iv₃ tokens id a db here sound vector text
      paired fresh =
    let read : decrypt crypto (encrypt crypto iv' tokens.access) ≡ some tokens.access =
      decrypt-encrypt crypto sound iv' tokens.access vector paired ∙ rw text refl in
    let found : cached_token c.crypto (renewed crypto iv iv' tokens now a) ≡ some tokens.access =
      rw here read in
    rw (found, fresh, access_token_for) refl
