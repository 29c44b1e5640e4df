-- ===== src/Support/Mailed.antt =====
-- A request for support with the mail about it: src/support/support.service.ts over src/mail/mail.service.ts. How an id is
-- written is a parameter.
use tutor_app_back.Support.{submit, new_request}
use tutor_app_back.Mail.{
  SupportEmail, MailConfig, Post, Answer, Delivery, logged, posted, failed, unanswered,
  send_support_request,
}
use tutor_app_back.Prelude.{
  ◌≡◌, refl, inl, inr, Bool, true, false, Option, some, arith, if◌then◌else◌, Bool-cases,
}
use tutor_app_back.Prelude.Int.{ℤ}
use tutor_app_back.Prelude.Table.{
  Key, lookup, modify, append, lookup-modify, lookup-append, KeysBelow, lookup_fresh,
}
use tutor_app_back.Model.{User, SupportRow, Db, ok}
use tutor_app_back.Model.Text.{Text}

abbrev pub support_email : (Key → Text) → User → Key → SupportRow → SupportEmail
support_email print user id r = record {
  request_id = print id;
  from_name = user.row.name;
  from_email = user.row.email;
  school_id = print user.school_id;
  message = r.message;
}

-- The call returned.
abbrev pub is_done : Delivery → Bool
is_done (logged _) = true
is_done (posted _) = true
is_done (failed _ _) = false
is_done (unanswered _) = false

abbrev pub mails :
    MailConfig → (Post → Option Answer) → (Key → Text) → User → Key → SupportRow → Bool
mails c fetch print user id r =
    is_done (send_support_request c fetch (support_email print user id r))

module _ (sends : Key → SupportRow → Bool) (now : ℤ) (user : User) (message : Text) (db : Db)
    (below : KeysBelow db.next_id db.support_requests) where
  abbrev row : SupportRow
  row = new_request message user

  stored : lookup db.next_id (append db.next_id row db.support_requests) ≡ some row
  stored = ground (
    arith,
    lookup-append db.next_id db.next_id row db.support_requests
        (lookup_fresh db.next_id db.support_requests below),
  )

  marked :
      lookup db.next_id (
        modify db.next_id
          (λ (x : SupportRow). record x { notified_at = some now })
          (append db.next_id row db.support_requests))
      ≡ some (record row { notified_at = some now })
  marked = ground (
    arith,
    lookup-modify db.next_id db.next_id (λ (x : SupportRow). record x { notified_at = some now })
        (append db.next_id row db.support_requests),
    stored,
  )

  submit_outcome :
      ((submit sends now user message db).0 ≡ ok db.next_id)
      × (lookup db.next_id (submit sends now user message db).1.support_requests
          ≡ some (if sends db.next_id row then record row { notified_at = some now } else row))
  unfolding submit
  submit_outcome = elim (Bool-cases (sends db.next_id row)) [
    | inl sent ↦ (rw (sent, submit) refl, rw (sent, submit) marked)
    | inr threw ↦ (rw (threw, submit) refl, rw (threw, submit) stored)
  ]

-- With fresh ids a request for support is always answered with its id and stored, and it is marked as notified exactly when
-- the call of the mail service returned: after a line of the log as well as after a mail that the provider took.
pub submit-mails :
    (c : MailConfig) (fetch : Post → Option Answer) (print : Key → Text) (now : ℤ) (user : User)
    (message : Text) (db : Db)
    → KeysBelow db.next_id db.support_requests
    → ((submit (mails c fetch print user) now user message db).0 ≡ ok db.next_id)
      × (lookup db.next_id
            (submit (mails c fetch print user) now user message db).1.support_requests
          ≡ some (
              if mails c fetch print user db.next_id (new_request message user)
              then record (new_request message user) { notified_at = some now }
              else new_request message user))
submit-mails c fetch print now user message db below =
    submit_outcome (mails c fetch print user) now user message db below
