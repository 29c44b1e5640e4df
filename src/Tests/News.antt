-- ===== src/Tests/News.antt =====
-- Announcements and their pushes, evaluated on the small school.
use tutor_app_back.Push.{
  PushMessage, FcmMessage, FcmResponse, log, fcm, PushConfig, send, authenticate,
}
use tutor_app_back.Push.Credentials.{ServiceAccount, ServiceAccountFields, TokenAnswer}
use tutor_app_back.Push.Delivery.{retired_by, send_returns}
use tutor_app_back.Tests.{north}
use tutor_app_back.Prelude.{
  String, ◌≡◌, refl, ◌⊎◌, true, false, Option, none, some, List, [], ◌∷◌, if◌then◌else◌,
}
use tutor_app_back.Prelude.Int.{ℤ, pos}
use tutor_app_back.Model.{android, PushTokenRow, Db}
use tutor_app_back.Model.Text.{Text, ascii, text_eq}

-- Two devices of one tutor, of which FCM no longer knows the second.
abbrev device : String → PushTokenRow
device token = record {
  token = ascii token;
  platform = android;
  last_seen_at = pos 0;
  user_id = 10;
}

abbrev equipped : Db
equipped = record north { push_tokens = device "new" ∷ device "old" ∷ [] }

abbrev answer : Text → Text → FcmMessage → Option FcmResponse
answer project token m = some (
    if text_eq m.token (ascii "old")
    then record { is_success = false; code = ascii "404"; status = some (ascii "NOT_FOUND") }
    else record { is_success = true; code = ascii "200"; status = none })

abbrev fields : Text → Option ServiceAccountFields
fields raw = some (record {
  project_id = some (ascii "school");
  client_email = some (ascii "push@school");
  private_key = some (ascii "key");
})

abbrev issue : ServiceAccount → ℤ → Option TokenAnswer
issue account now = some (record { access_token = some (ascii "token"); expires_in = none })

abbrev pushing : PushConfig
pushing = record { transport = fcm; service_account = some (ascii "{}") }

abbrev message : String → PushMessage
message token = record {
  to = ascii token;
  title = ascii "North";
  body = ascii "Closed on Monday";
  payload = [];
  channel_id = none;
}

abbrev messages : List PushMessage
messages = message "new" ∷ message "old" ∷ []

abbrev push : List PushMessage → Option (List Text)
push ms = (send answer fields issue pushing (pos 5) ms none).0

send_returns_example :
    (((messages ≡ []) ⊎ (pushing.transport ≡ log))
      × (send answer fields issue pushing (pos 5) messages none ≡ (some [], none)))
    ⊎ ((pushing.transport ≡ fcm)
        × (send answer fields issue pushing (pos 5) messages none ≡ (
          some (
              retired_by answer fields issue pushing
                ((authenticate answer fields issue pushing (pos 5) none).0)
                messages),
          (authenticate answer fields issue pushing (pos 5) none).1,
        )))
send_returns_example = send_returns answer fields issue pushing (pos 5) messages none

-- The second device is the one to retire.
one_device_is_retired : push messages ≡ some (ascii "old" ∷ [])
unfolding send
one_device_is_retired = refl
