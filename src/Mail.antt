-- ===== src/Mail.antt =====
-- src/mail/mail.service.ts: the mails of the service. The log and the network are outside: what is logged and what is
-- posted are values, and what the mail provider answers a request is a parameter. How an instant is written is one too.
use tutor_app_back.Env.{MailTransport, is_resend}
use tutor_app_back.Prelude.{
  ◌≡◌, refl, inl, inr, Bool, not, Option, none, some, List, [], ◌∷◌, ◌++◌, if◌then◌else◌,
  Bool-cases, Option-cases, get_or, take,
}
use tutor_app_back.Prelude.Int.{ℤ}
use tutor_app_back.Model.Text.{Text, ascii}

pub record SupportEmail : Type 0 where
  pub request_id : Text
  pub from_name : Text
  pub from_email : Text
  pub school_id : Text
  pub message : Text

pub record InvitationEmail : Type 0 where
  pub to : Text
  pub school_name : Text
  pub invited_by_name : Text
  pub accept_url : Text
  pub expires_at : ℤ

pub record Outgoing : Type 0 where
  pub to : Text
  pub subject : Text
  pub text : Text

pub record MailConfig : Type 0 where
  pub transport : MailTransport
  pub api_key : Text
  pub mail_from : Text
  pub support_email : Text

-- The request to the provider, with the fields of its JSON body.
pub record Post : Type 0 where
  pub url : Text
  pub content_type : Text
  pub authorization : Text
  pub from : Text
  pub to : List Text
  pub subject : Text
  pub text : Text

-- The status as it is written, and the body where it could be read. A request may get no answer.
pub record Answer : Type 0 where
  pub is_ok : Bool
  pub status : Text
  pub body : Option Text

-- A call returns after a line of the log or after a request, or throws after a request.
pub data Delivery : Type 0 where
  logged : Text → Delivery
  posted : Post → Delivery
  failed : Post → Text → Delivery
  unanswered : Post → Delivery

-- `lines.join('\n')`
abbrev pub join_lines : List Text → Text
join_lines [] = []
join_lines (s ∷ []) = s
join_lines (s ∷ t ∷ rest) = s ++ 10 ∷ join_lines (t ∷ rest)

abbrev pub log_entry : Outgoing → Text
log_entry m =
    join_lines (
      (ascii "--- email to " ++ (m.to ++ ascii " ---"))
      ∷ m.subject
      ∷ []
      ∷ m.text
      ∷ ascii "---"
      ∷ [])

abbrev pub post_of : MailConfig → Outgoing → Post
post_of c m = record {
  url = ascii "https://api.resend.com/emails";
  content_type = ascii "application/json";
  authorization = ascii "Bearer " ++ c.api_key;
  from = c.mail_from;
  to = m.to ∷ [];
  subject = m.subject;
  text = m.text;
}

abbrev pub failure : Text → Answer → Text
failure to a =
    ascii "Could not send email to "
    ++ (to ++ (ascii ": " ++ (a.status ++ 32 ∷ take 300 (get_or a.body []))))

-- The part of `deliver` behind the request. Without an answer the request itself throws.
abbrev pub answered : Outgoing → Post → Option Answer → Delivery
answered m post none = unanswered post
answered m post (some a) = if a.is_ok then posted post else failed post (failure m.to a)

module _ (c : MailConfig) (fetch : Post → Option Answer) where
  unfoldable pub deliver : Outgoing → Delivery
  deliver m =
      if not (is_resend c.transport)
      then logged (log_entry m)
      else answered m (post_of c m) (fetch (post_of c m))

  abbrev pub support_mail : SupportEmail → Outgoing
  support_mail r = record {
    to = c.support_email;
    subject = ascii "Support request " ++ r.request_id;
    text = join_lines (
        (ascii "From: " ++ (r.from_name ++ (ascii " <" ++ (r.from_email ++ ascii ">"))))
        ∷ (ascii "School: " ++ r.school_id)
        ∷ (ascii "Request: " ++ r.request_id)
        ∷ []
        ∷ r.message
        ∷ []);
  }

  unfoldable pub send_support_request : SupportEmail → Delivery
  unfolding deliver
  send_support_request r = deliver (support_mail r)

  abbrev pub invitation_mail : (ℤ → Text) → InvitationEmail → Outgoing
  invitation_mail iso e = record {
    to = e.to;
    subject = e.invited_by_name ++ (ascii " invited you to " ++ e.school_name);
    text = join_lines (
        (e.invited_by_name
          ++ (ascii " invited you to join " ++ (e.school_name ++ ascii " on Fox Academy.")))
        ∷ []
        ∷ ascii "Open this link on your phone to finish signing up:"
        ∷ e.accept_url
        ∷ []
        ∷ (ascii "The link expires " ++ (iso e.expires_at ++ ascii "."))
        ∷ []);
  }

  unfoldable pub send_invitation : (ℤ → Text) → InvitationEmail → Delivery
  unfolding deliver
  send_invitation iso e = deliver (invitation_mail iso e)

-- The text that the service throws itself.
abbrev pub thrown : Delivery → Option Text
thrown (logged _) = none
thrown (posted _) = none
thrown (failed _ why) = some why
thrown (unanswered _) = none

-- What an invitation that could not be sent throws depends on the recipient and on the provider's answer alone: with one
-- answer, two invitations to one recipient throw the same text or both throw none, whatever their links and texts.
pub failure_tells_no_link :
    (c : MailConfig) (answer : Option Answer) (iso : ℤ → Text) (e f : InvitationEmail)
    → e.to ≡ f.to
    → thrown (send_invitation c (λ _. answer) iso e)
      ≡ thrown (send_invitation c (λ _. answer) iso f)
unfolding send_invitation deliver
failure_tells_no_link c answer iso e f same = elim (Bool-cases (is_resend c.transport)) [
  | inr off ↦ rw off refl
  | inl on ↦ rw on (elim (Option-cases answer) [
    | inl lost ↦ rw lost refl
    | inr (a, given) ↦ elim (Bool-cases (a.is_ok)) [
      | inl fine ↦ rw given (rw fine refl)
      | inr refused ↦ rw given (rw refused (rw same refl))
    ]
  ])
]
