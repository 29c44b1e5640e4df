-- ===== src/Invitations/Once.antt =====
-- An invitation makes one account, however the redemptions interleave.
use tutor_app_back.Invitations.{redeem, claim, insert_user, accepted, joining, email_used, is_open}
use tutor_app_back.Prelude.{
  ◌+◌, ◌≡◌, refl, sym, ap, ◌∙◌, ◌⊎◌, inl, inr, true, false, arith, Bool-cases,
}
use tutor_app_back.Prelude.Int.{ℤ}
use tutor_app_back.Prelude.Table.{Key, lookup, modify, append, lookup-modify}
use tutor_app_back.Model.{
  UserRow, User, InvitationRow, Db, Error, invitation_used, unique_violation, ok, err,
}
use tutor_app_back.Model.Text.{Text}

-- What a redemption that returned has done.
abbrev pub Redeemed : ℤ → Text → Text → Key → InvitationRow → Db → User → Db → Type 0
Redeemed now name hash k i db u d =
    (is_open (lookup k db.invitations) ≡ true)
    × (email_used i.email db.users ≡ false)
    × (u ≡ record { id = db.next_id; row = joining name hash i })
    × (d ≡ record db {
      invitations = modify k (accepted now) db.invitations;
      users = append db.next_id (joining name hash i) db.users;
      next_id = db.next_id + 1;
    })

pub insert_user-taken :
    (u : UserRow) (db : Db)
    → email_used u.email db.users ≡ true
    → insert_user u db ≡ (err unique_violation, db)
unfolding insert_user
insert_user-taken u db taken = rw taken refl

pub insert_user-untaken :
    (u : UserRow) (db : Db)
    → email_used u.email db.users ≡ false
    → insert_user u db ≡ (
      ok (record { id = db.next_id; row = u }),
      record db { users = append db.next_id u db.users; next_id = db.next_id + 1 },
    )
unfolding insert_user
insert_user-untaken u db untaken = rw untaken refl

module _ (now : ℤ) (name hash : Text) (k : Key) (i : InvitationRow) (db : Db) where
  claim-shut :
      is_open (lookup k db.invitations) ≡ false → claim now k db ≡ (err invitation_used, db)
  unfolding claim
  claim-shut shut = rw shut refl

  claim-open :
      is_open (lookup k db.invitations) ≡ true
      → claim now k db ≡ (ok tt, record db { invitations = modify k (accepted now) db.invitations })
  unfolding claim
  claim-open free = rw free refl

  redeem-shut :
      is_open (lookup k db.invitations) ≡ false
      → redeem now name hash (k, i) db ≡ (err invitation_used, db)
  unfolding redeem
  redeem-shut shut = ground (arith, claim-shut shut)

  redeem-taken :
      is_open (lookup k db.invitations) ≡ true
      → email_used i.email db.users ≡ true
      → redeem now name hash (k, i) db ≡ (err unique_violation, db)
  unfolding redeem
  redeem-taken free taken =
      let claimed = record db { invitations = modify k (accepted now) db.invitations } in
      ground (arith, claim-open free, insert_user-taken (joining name hash i) claimed taken)

  pub redeem-open :
      is_open (lookup k db.invitations) ≡ true
      → email_used i.email db.users ≡ false
      → redeem now name hash (k, i) db ≡ (
        ok (record { id = db.next_id; row = joining name hash i }),
        record db {
          invitations = modify k (accepted now) db.invitations;
          users = append db.next_id (joining name hash i) db.users;
          next_id = db.next_id + 1;
        },
      )
  unfolding redeem
  redeem-open free untaken =
      let claimed = record db { invitations = modify k (accepted now) db.invitations } in
      ground (arith, claim-open free, insert_user-untaken (joining name hash i) claimed untaken)

  -- A redemption throws and writes nothing, though it has already marked the invitation when an account
  -- with the address turns up; or it returns, and then the invitation was open, nobody had the address, and
  -- the invitation is marked and the account stored.
  pub redeem_outcome :
      ((e : Error) × (redeem now name hash (k, i) db ≡ (err e, db)))
      ⊎ ((u : User) × (d : Db) × (redeem now name hash (k, i) db ≡ (ok u, d))
          × Redeemed now name hash k i db u d)
  redeem_outcome = elim (Bool-cases (is_open (lookup k db.invitations))) [
    | inr shut ↦ inl (invitation_used, redeem-shut shut)
    | inl free ↦ elim (Bool-cases (email_used i.email db.users)) [
      | inl taken ↦ inl (unique_violation, redeem-taken free taken)
      | inr untaken ↦ inr (_, _, redeem-open free untaken, (free, untaken, refl, refl))
    ]
  ]

-- Once a redemption has returned, every other one of the same invitation throws and writes nothing, also one
-- that had read the invitation before, as long as the row of the invitation is as the first left it.
pub redeem_once :
    (now later : ℤ) (name hash name' hash' : Text) (k : Key) (i i' : InvitationRow) (db d d' : Db)
    (u : User)
    → redeem now name hash (k, i) db ≡ (ok u, d)
    → lookup k d'.invitations ≡ lookup k d.invitations
    → redeem later name' hash' (k, i') d' ≡ (err invitation_used, d')
redeem_once now later name hash name' hash' k i i' db d d' u h same =
    elim (redeem_outcome now name hash k i db) [
      | inl (e, refused) ↦ absurd (cc)
      | inr (v, c, done, (free, _, _, after)) ↦
          let stored : d.invitations ≡ modify k (accepted now) db.invitations =
            ap (λ p. p.1.invitations) (sym h ∙ done) ∙ ap (λ (x : Db). x.invitations) after in
          redeem-shut later name' hash' k i' d' (
            rw same
              (rw stored (ground (arith, free, lookup-modify k k (accepted now) db.invitations))))
    ]
