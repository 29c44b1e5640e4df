-- ===== src/Support.antt =====
-- src/support/support.service.ts: requests for support. Whether the call that mails a request returned is a
-- parameter, nothing written by it.

pub mod Mailed
use tutor_app_back.Prelude.{◌+◌, Bool, none, some, ◌==◌, if◌then◌else◌}
use tutor_app_back.Prelude.Int.{ℤ}
use tutor_app_back.Prelude.Table.{Key, Table, modify, append, find_many}
use tutor_app_back.Model.{User, SupportRow, ok, Action, pure, gets, ◌>>=◌, ◌>>◌, write}
use tutor_app_back.Model.Text.{Text, trim}

abbrev pub new_request : Text → User → SupportRow
new_request message user = record {
  message = trim message;
  notified_at = none;
  user_id = user.id;
  school_id = user.school_id;
}

abbrev pub insert_request : SupportRow → Action Key
insert_request r db = (
  ok db.next_id,
  record db {
    support_requests = append db.next_id r db.support_requests;
    next_id = db.next_id + 1;
  },
)

-- `supportRequest.update`, whose failure is caught
abbrev pub mark_notified : ℤ → Key → Action (Unit {0})
mark_notified now id = write (λ db. record db {
  support_requests =
      modify id (λ (r : SupportRow). record r { notified_at = some now }) db.support_requests;
})

-- The row comes first; a mail that fails leaves it.
unfoldable pub submit : (Key → SupportRow → Bool) → ℤ → User → Text → Action Key
unfolding trim
submit sends now user message = do
  id ← insert_request (new_request message user)
  (if sends id (new_request message user) then mark_notified now id else pure tt)
  pure id

-- The rows behind `list`, before their order and their limit.
unfoldable pub history : User → Action (Table SupportRow)
history user = gets (λ db. find_many (λ r. r.user_id == user.id) db.support_requests)
