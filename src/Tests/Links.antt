-- ===== src/Tests/Links.antt =====
-- The redemption of an invitation, evaluated on the small school.
use tutor_app_back.Invitations.{email_used, is_token_taken}
use tutor_app_back.Invitations.{claim, insert_user, redeem}
use tutor_app_back.Invitations.Once.{redeem_once}
use tutor_app_back.Tests.{head, north}
use tutor_app_back.Invitations.{invite, accept}
use tutor_app_back.Invitations.Redeeming.{invite-then-accept}
use tutor_app_back.Prelude.{◌≡◌, refl, ◌⊎◌, true, none, [], ◌∷◌, arith}
use tutor_app_back.Prelude.Int.{pos, ◌+ℤ◌}
use tutor_app_back.Prelude.Table.{Key}
use tutor_app_back.Model.{
  tutor, User, InvitationRow, Db, email_taken, invitation_used, unique_violation, Result, ok, err,
}
use tutor_app_back.Model.Text.{Text, ascii, trim}

abbrev invited : InvitationRow
invited = record {
  email = ascii "new@b.c";
  token = ascii "t0k3n";
  role = tutor;
  expires_at = pos 100;
  accepted_at = none;
  school_id = 1;
  invited_by_id = 11;
}

abbrev inviting : Db
inviting = record north { invitations = (70, invited) ∷ [] }

abbrev joined : Result User × Db
joined = redeem (pos 5) (ascii "Cy") (ascii "h1") (70, invited) inviting

newcomer_joins : joined ≡ (
  ok (record {
    id = 100;
    row = record {
      email = ascii "new@b.c";
      password_hash = ascii "h1";
      name = ascii "Cy";
      role = tutor;
      school_id = 1;
      token_version = 0;
      config = ascii "{}";
    };
  }),
  joined.1,
)
unfolding redeem claim insert_user trim
newcomer_joins = refl

redeem_once_example :
    redeem (pos 6) (ascii "Di") (ascii "h2") (70, invited) joined.1
    ≡ (err invitation_used, joined.1)
redeem_once_example =
    redeem_once (pos 5) (pos 6) (ascii "Cy") (ascii "h1") (ascii "Di") (ascii "h2") 70 invited
      invited inviting joined.1 joined.1 _ newcomer_joins refl

-- The address is written in lower case already.
abbrev as_typed : Text → Text
as_typed s = s

invite-then-accept_example :
    ((email_used (as_typed (trim (ascii "new@b.c"))) inviting.users ≡ true)
      × (invite as_typed 48 (pos 0) (ascii "l1nk") head (ascii "new@b.c") inviting
          ≡ (err email_taken, inviting)))
    ⊎ (((k : Key) × (is_token_taken k (ascii "l1nk") inviting.invitations ≡ true)
          × (invite as_typed 48 (pos 0) (ascii "l1nk") head (ascii "new@b.c") inviting
              ≡ (err unique_violation, inviting)))
        ⊎ ((i : InvitationRow) × (d : Db) × (u : User) × (d' : Db) × (invite as_typed 48
                (pos 0)
                (ascii "l1nk")
                head
                (ascii "new@b.c")
                inviting
              ≡ (ok i, d))
            × (accept (pos 5) (ascii "l1nk") (ascii "Cy") (ascii "h1") d ≡ (ok u, d'))
            × (u.row.email ≡ trim (ascii "new@b.c"))
            × (u.row.school_id ≡ head.school_id)
            × (u.row.password_hash ≡ ascii "h1")
            × (u.row.role ≡ i.role)))
unfolding ◌+ℤ◌
invite-then-accept_example =
    invite-then-accept as_typed 48 (pos 0) (pos 5) (ascii "l1nk") head (ascii "new@b.c")
      (ascii "Cy") (ascii "h1") inviting (refl, tt) (omega arith, tt) refl
