-- ===== src/Tests/Edges.antt =====
-- The allowances, the origins and the invitation page on small inputs.
use tutor_app_back.Mail.{MailConfig, Post, Answer, send_support_request, deliver}
use tutor_app_back.Env.{MailTransport}
use tutor_app_back.Support.{submit, new_request}
use tutor_app_back.Support.Mailed.{mails, submit-mails}
use tutor_app_back.Tests.{teacher, north}
use tutor_app_back.Web.Callers.{Request, get_tracker, OneCaller, trackers_agree_iff, account_from}
use tutor_app_back.Web.Origins.{listed, IsClosed, no_origin, configure_cors, cors-IsClosed}
use tutor_app_back.Web.InvitePage.{page, is_token, document, deep_link, markup, pages_same_markup}
use tutor_app_back.Env.{cors_origins_for, production}
use tutor_app_back.Prelude.{◌≡◌, refl, ◌↔◌, true, Option, none, some, [], ◌∷◌, ◌++◌, if◌then◌else◌}
use tutor_app_back.Prelude.Int.{pos}
use tutor_app_back.Prelude.Table.{lookup}
use tutor_app_back.Model.{ok}
use tutor_app_back.Model.Text.{Text, ascii, trim, text_eq}

-- A token is good when it says nothing else than a name.
abbrev names : Text → Option (Option Text)
names token = if text_eq token (ascii "forged") then none else some (some token)

abbrev from_home : Text → Request
from_home token = record {
  user_id = none;
  authorization = some (ascii "Bearer " ++ token);
  ip = some (ascii "10.0.0.1");
  remote_address = none;
}

-- A token that does not verify is counted by the address.
forged_counts_as_address : get_tracker names (from_home (ascii "forged")) ≡ ascii "ip:10.0.0.1"
unfolding get_tracker account_from trim
forged_counts_as_address = refl

trackers_agree_iff_example :
    (get_tracker names (from_home (ascii "ann")) ≡ get_tracker names (from_home (ascii "forged")))
    ↔ OneCaller names (from_home (ascii "ann")) (from_home (ascii "forged"))
trackers_agree_iff_example =
    trackers_agree_iff names (from_home (ascii "ann")) (from_home (ascii "forged"))

abbrev two_pages : Text
two_pages = ascii "https://a.b, https://c.d,"

two_listed :
    configure_cors true (cors_origins_for (some two_pages) production)
    ≡ some (listed (ascii "https://a.b" ∷ ascii "https://c.d" ∷ []))
unfolding configure_cors trim
two_listed = refl

cors-IsClosed_example :
    IsClosed (listed (ascii "https://a.b" ∷ ascii "https://c.d" ∷ []))
    × (some two_pages ≡ none → listed (ascii "https://a.b" ∷ ascii "https://c.d" ∷ []) ≡ no_origin)
cors-IsClosed_example =
    cors-IsClosed (some two_pages) (listed (ascii "https://a.b" ∷ ascii "https://c.d" ∷ []))
      two_listed

abbrev scheme : Text
scheme = ascii "foxacademy://invite"

abbrev one_token : Text
one_token = ascii "abcdefgh_ABCDEF-0123"

abbrev other_token : Text
other_token = ascii "0123456789012345"

served :
    (token : Text)
    → is_token token ≡ true
    → page scheme token ≡ some (document (deep_link scheme token))
unfolding page
served token fine = rw (fine, page) refl

one_is_token : is_token one_token ≡ true
unfolding is_token
one_is_token = refl

other_is_token : is_token other_token ≡ true
unfolding is_token
other_is_token = refl

pages_same_markup_example :
    markup (document (deep_link scheme one_token))
    ≡ markup (document (deep_link scheme other_token))
pages_same_markup_example =
    pages_same_markup scheme one_token other_token (document (deep_link scheme one_token))
      (document (deep_link scheme other_token)) (served one_token one_is_token)
      (served other_token other_is_token)

-- Development: mails go to the log.
abbrev to_the_log : MailConfig
to_the_log = record {
  transport = MailTransport.log;
  api_key = [];
  mail_from = [];
  support_email = ascii "help@a.b";
}

abbrev unreachable : Post → Option Answer
unreachable p = none

-- Nothing was sent, and the request counts as notified.
log_counts_as_sent :
    mails to_the_log unreachable (λ k. ascii "id") teacher 100 (new_request (ascii "Help") teacher)
    ≡ true
unfolding send_support_request deliver
log_counts_as_sent = refl

submit-mails_example :
    ((submit
        (mails to_the_log unreachable (λ k. ascii "id") teacher)
        (pos 7)
        teacher
        (ascii "Help")
        north).0
      ≡ ok 100)
    × (lookup 100
          (submit
            (mails to_the_log unreachable (λ k. ascii "id") teacher)
            (pos 7)
            teacher
            (ascii "Help")
            north).1.support_requests
        ≡ some (
            if mails to_the_log unreachable
              (λ k. ascii "id")
              teacher
              100
              (new_request (ascii "Help") teacher)
            then record (new_request (ascii "Help") teacher) { notified_at = some (pos 7) }
            else new_request (ascii "Help") teacher))
submit-mails_example =
    submit-mails to_the_log unreachable (λ k. ascii "id") (pos 7) teacher (ascii "Help") north tt
