-- ===== src/Invitations/Redeeming.antt =====
-- A link that `invite` of src/invitations/invitations.service.ts made is one that `accept` takes.
use tutor_app_back.Invitations.{
  upsert_invitation, invite, renewed, new_invitation, is_for, is_token_taken, find_usable, accept,
  redeem, joining, hour_ms, is_open, email_used, is_unusable,
}
use tutor_app_back.Invitations.Once.{redeem-open}
use tutor_app_back.Invitations.{accepted}
use tutor_app_back.Prelude.{
  ℕ, ◌+◌, ◌*◌, ◌≡◌, refl, ◌∙◌, ◌⊎◌, inl, inr, true, false, none, some, arith, Bool-cases,
  Option-cases,
}
use tutor_app_back.Prelude.Int.{ℤ, pos, ◌+ℤ◌, ltb_ℤ}
use tutor_app_back.Prelude.Table.{
  Key, lookup, modify, append, lookup-modify, lookup-append, KeysBelow, lookup_fresh, find_first,
  IsKeyed, find_first-stored, find_first-modify, find_first-append,
}
use tutor_app_back.Model.{User, InvitationRow, Db, email_taken, unique_violation, ok, err, >>=-ok}
use tutor_app_back.Model.Text.{Text, trim, text_eq, text_eq_refl, text_eq_sound}

-- The invitation of this id is the one that the token finds, open until it expires, to an address in a school.
abbrev IsPending : Key → InvitationRow → Text → Text → ℤ → Key → Db → Type 0
IsPending k i email token expires school d =
    (find_first (λ _ (j : InvitationRow). text_eq j.token token) d.invitations ≡ some (k, i))
    × (lookup k d.invitations ≡ some i)
    × (i.accepted_at ≡ none)
    × (i.expires_at ≡ expires)
    × (i.email ≡ email)
    × (i.school_id ≡ school)

module _ (email token : Text) (expires : ℤ) (inviter : User) (db : Db) where
  upsert-known :
      (k : Key) (i : InvitationRow)
      → IsKeyed db.invitations
      → find_first (is_for inviter.school_id email) db.invitations ≡ some (k, i)
      → is_token_taken k token db.invitations ≡ false
      → IsPending k
          (renewed token expires inviter.id i)
          email
          token
          expires
          inviter.school_id
          (record db { invitations = modify k (renewed token expires inviter.id) db.invitations })
  upsert-known k i keyed known free =
      let (mine, stored) =
        find_first-stored (is_for inviter.school_id email) k i db.invitations keyed known in
      let at : i.school_id ≡ inviter.school_id = ground (arith, mine) in
      let to : text_eq i.email email ≡ true = ground (arith, mine) in
      (
        find_first-modify (λ (j : InvitationRow). text_eq j.token token) k
            (renewed token expires inviter.id) i db.invitations stored (text_eq_refl token) free,
        ground (arith, stored, lookup-modify k k (renewed token expires inviter.id) db.invitations),
        refl,
        refl,
        text_eq_sound i.email email to,
        at,
      )

  upsert-new :
      KeysBelow db.next_id db.invitations
      → is_token_taken db.next_id token db.invitations ≡ false
      → IsPending db.next_id
          (new_invitation email token expires inviter)
          email
          token
          expires
          inviter.school_id
          (record db {
            invitations =
                append db.next_id (new_invitation email token expires inviter) db.invitations;
            next_id = db.next_id + 1;
          })
  upsert-new below free =
      let i = new_invitation email token expires inviter in
      (
        find_first-append (λ (j : InvitationRow). text_eq j.token token) db.next_id i db.invitations
            below (text_eq_refl token) free,
        ground (
          arith,
          lookup-append db.next_id db.next_id i db.invitations
              (lookup_fresh db.next_id db.invitations below),
        ),
        refl,
        refl,
        refl,
        refl,
      )

  upsert_outcome :
      IsKeyed db.invitations
      → KeysBelow db.next_id db.invitations
      → ((k : Key) × (is_token_taken k token db.invitations ≡ true)
          × (upsert_invitation email token expires inviter db ≡ (err unique_violation, db)))
        ⊎ ((k : Key) × (i : InvitationRow) × (d : Db) × (upsert_invitation email token expires
                inviter db
              ≡ (ok i, d))
            × IsPending k i email token expires inviter.school_id d
            × (d.users ≡ db.users))
  unfolding upsert_invitation
  upsert_outcome keyed below =
      elim (Option-cases (find_first (is_for inviter.school_id email) db.invitations)) [
        | inl unknown ↦ elim (Bool-cases (is_token_taken db.next_id token db.invitations)) [
          | inl taken ↦ inl (db.next_id, taken, rw (unknown, taken, upsert_invitation) refl)
          | inr free ↦ inr (
            db.next_id,
            new_invitation email token expires inviter,
            record db {
              invitations =
                  append db.next_id (new_invitation email token expires inviter) db.invitations;
              next_id = db.next_id + 1;
            },
            rw (unknown, free, upsert_invitation) refl,
            upsert-new below free,
            refl,
          )
        ]
        | inr ((k, j), known) ↦ elim (Bool-cases (is_token_taken k token db.invitations)) [
          | inl taken ↦ inl (k, taken, rw (known, taken, upsert_invitation) refl)
          | inr free ↦ inr (
            k,
            renewed token expires inviter.id j,
            record db { invitations = modify k (renewed token expires inviter.id) db.invitations },
            rw (known, free, upsert_invitation) refl,
            upsert-known k j keyed known free,
            refl,
          )
        ]
      ]

module _ (email token : Text) (expires : ℤ) (school k : Key) (i : InvitationRow) (d : Db) where
  find_usable-pending :
      (later : ℤ)
      → IsPending k i email token expires school d
      → ltb_ℤ expires later ≡ false
      → find_usable later token d ≡ (ok (k, i), d)
  unfolding find_usable
  find_usable-pending later (found, stored, free, until, to, at) early =
      let usable : is_unusable later i ≡ false = rw (free, until) early in
      rw (found, find_usable, usable) refl

  accept-pending :
      (later : ℤ) (name hash : Text)
      → IsPending k i email token expires school d
      → ltb_ℤ expires later ≡ false
      → email_used email d.users ≡ false
      → (d' : Db) × (accept later token name hash d
          ≡ (ok (record { id = d.next_id; row = joining name hash i }), d'))
  unfolding accept
  accept-pending later name hash (found, stored, free, until, to, at) early untaken =
      let shown : is_open (lookup k d.invitations) ≡ true = rw (stored, free) refl in
      let unused : email_used i.email d.users ≡ false = rw to untaken in
      (
        _,
        >>=-ok (find_usable later token) (redeem later name hash) d d
              (find_usable-pending later (found, stored, free, until, to, at) early)
            ∙ redeem-open later name hash k i d shown unused,
      )

-- An invitation can be used. Where ids are distinct and new ones fresh, `invite` throws and writes nothing,
-- because the address has an account or another invitation has the token, or returns an invitation, and
-- then, at any time until it expires, the link with its token makes an account with the address the
-- invitation was sent to, in the school of the one who sent it.
pub invite-then-accept :
    (lower : Text → Text) (ttl_hours : ℕ) (now later : ℤ) (token : Text) (inviter : User)
    (typed name hash : Text) (db : Db)
    → IsKeyed db.invitations
    → KeysBelow db.next_id db.invitations
    → ltb_ℤ (now +ℤ pos (ttl_hours * hour_ms)) later ≡ false
    → ((email_used (lower (trim typed)) db.users ≡ true)
        × (invite lower ttl_hours now token inviter typed db ≡ (err email_taken, db)))
      ⊎ (((k : Key) × (is_token_taken k token db.invitations ≡ true)
            × (invite lower ttl_hours now token inviter typed db ≡ (err unique_violation, db)))
          ⊎ ((i : InvitationRow) × (d : Db) × (u : User) × (d' : Db) × (invite lower ttl_hours now
                  token inviter typed db
                ≡ (ok i, d))
              × (accept later token name hash d ≡ (ok u, d'))
              × (u.row.email ≡ lower (trim typed))
              × (u.row.school_id ≡ inviter.school_id)
              × (u.row.password_hash ≡ hash)
              × (u.row.role ≡ i.role)))
unfolding invite
invite-then-accept lower ttl_hours now later token inviter typed name hash db keyed below early =
    let email = lower (trim typed) in
    let expires = now +ℤ pos (ttl_hours * hour_ms) in
    elim (Bool-cases (email_used email db.users)) [
      | inl taken ↦ inl (taken, rw (taken, invite) refl)
      | inr untaken ↦ elim (upsert_outcome email token expires inviter db keyed below) [
        | inl (j, clash, refused) ↦ inr (inl (j, clash, rw (untaken, invite) refused))
        | inr (k, i, d, made, sent, users) ↦
            let (d', accepted) =
              accept-pending email token expires inviter.school_id k i d later name hash sent early
                (rw users untaken) in
            inr (
              inr (
                i,
                d,
                record { id = d.next_id; row = joining name hash i },
                d',
                rw (untaken, invite) made,
                accepted,
                sent.4,
                sent.5,
                refl,
                refl,
              ))
      ]
    ]
