-- ===== src/Meetings/Endpoints.antt =====
-- src/meetings/oauth-providers.ts: what each provider is asked for a room and for an account, and what counts as its answer.
-- The network and the JSON parser are outside: a response is a status, a body and, where the body is JSON, the string
-- under each name. How an instant is written is a parameter.
use tutor_app_back.Lessons.{RoomRequest}
use tutor_app_back.Prelude.{
  ℕ, ◌≡◌, refl, ◌↔◌, inl, inr, Bool, true, false, not, Option, none, some, ◌++◌, arith,
  if◌then◌else◌, Bool-cases, Option-cases,
}
use tutor_app_back.Prelude.Int.{ℤ}
use tutor_app_back.Model.{MeetingProvider, zoom, google_meet, jitsi}
use tutor_app_back.Model.Text.{Text, ascii}

pub record ProviderEndpoints : Type 0 where
  pub authorize : Text
  pub token : Text
  pub api : Text

-- Nothing for the provider that needs no account.
abbrev pub default_endpoints : MeetingProvider → Option ProviderEndpoints
default_endpoints zoom = some (record {
  authorize = ascii "https://zoom.us/oauth/authorize";
  token = ascii "https://zoom.us/oauth/token";
  api = ascii "https://api.zoom.us";
})
default_endpoints google_meet = some (record {
  authorize = ascii "https://accounts.google.com/o/oauth2/v2/auth";
  token = ascii "https://oauth2.googleapis.com/token";
  api = ascii "https://meet.googleapis.com";
})
default_endpoints jitsi = none

-- The JSON bodies of the requests.
pub data RequestBody : Type 0 where
  no_body empty_object : RequestBody
  meeting_body :
      (topic : Text) (kind : ℕ) (start_time : Text) (duration : ℕ) (timezone : Text)
      (join_before_host waiting_room : Bool)
      → RequestBody

pub record HttpRequest : Type 0 where
  pub is_post : Bool
  pub url : Text
  pub authorization : Text
  pub body : RequestBody

-- A field that is missing or no string is nothing.
pub record HttpResponse : Type 0 where
  pub is_ok : Bool
  pub json : Option (Text → Option Text)

-- The fields of a response of status 2xx; nothing where it throws.
abbrev pub json_or_throw : HttpResponse → Option (Text → Option Text)
json_or_throw r = if not r.is_ok then none else r.json

abbrev pub string_field : Text → Option (Text → Option Text) → Option Text
string_field name none = none
string_field name (some fields) = fields name

abbrev pub bearer : Text → Text
bearer token = ascii "Bearer " ++ token

-- A space has no topic, start or length.
abbrev pub space_request : Text → Text → HttpRequest
space_request api token = record {
  is_post = true;
  url = api ++ ascii "/v2/spaces";
  authorization = bearer token;
  body = empty_object;
}

module _ (iso : ℤ → Text) where
  -- `createRoom`'s request.
  abbrev pub zoom_request : Text → Text → RoomRequest → HttpRequest
  zoom_request api token room = record {
    is_post = true;
    url = api ++ ascii "/v2/users/me/meetings";
    authorization = bearer token;
    body =
        meeting_body room.topic 2 (iso room.starts_at) room.duration_minutes (ascii "UTC") true
          false;
  }

  module _ (fetch : HttpRequest → HttpResponse) (api : MeetingProvider → Text) where
    -- `createRoom`: nothing where it throws, and for the provider that has none.
    unfoldable pub make_room : RoomRequest → MeetingProvider → Text → Option Text
    make_room room zoom token =
        string_field (ascii "join_url") (json_or_throw (fetch (zoom_request (api zoom) token room)))
    make_room room google_meet token =
        string_field (ascii "meetingUri")
          (json_or_throw (fetch (space_request (api google_meet) token)))
    make_room room jitsi token = none

-- `describeAccount`: nothing where it throws and for a provider without one, and in it nothing where there is no address.
unfoldable pub describe_account :
    (HttpRequest → HttpResponse)
    → (MeetingProvider → Text)
    → MeetingProvider
    → Text
    → Option (Option Text)
describe_account fetch api zoom token =
    elim (json_or_throw (
      fetch (record {
        is_post = false;
        url = api zoom ++ ascii "/v2/users/me";
        authorization = bearer token;
        body = no_body;
      }))) [ none ↦ none | some fields ↦ some (fields (ascii "email")) ]
describe_account fetch api google_meet token = some none
describe_account fetch api jitsi token = none

-- A response of status 2xx whose JSON has this text under the name.
abbrev pub Returned : HttpResponse → Text → Text → Type 0
Returned r name text =
    (r.is_ok ≡ true)
    × ((fields : Text → Option Text) × (r.json ≡ some fields) × (fields name ≡ some text))

string_field_iff :
    (r : HttpResponse) (name text : Text)
    → (string_field name (json_or_throw r) ≡ some text) ↔ Returned r name text
string_field_iff r name text = (
  λ h. elim (Bool-cases (r.is_ok)) [
    | inr bad ↦ absurd (ground (arith, h, bad))
    | inl fine ↦ elim (Option-cases (r.json)) [
      | inl unread ↦ absurd (ground (arith, h, fine, unread))
      | inr (fields, read) ↦ (fine, (fields, read, ground (arith, h, fine, read)))
    ]
  ],
  λ (fine, (fields, read, here)). ground (arith, fine, read, here),
)

-- Zoom gives a room exactly when it answers the request of the lesson with a status of 2xx and a `join_url` that is a text,
-- Google exactly when it answers the request of a space so with a `meetingUri`, and no other provider gives one.
pub make_room_iff :
    (iso : ℤ → Text) (fetch : HttpRequest → HttpResponse) (api : MeetingProvider → Text)
    (room : RoomRequest) (token url : Text)
    → ((make_room iso fetch api room zoom token ≡ some url)
        ↔ Returned (fetch (zoom_request iso (api zoom) token room)) (ascii "join_url") url)
      × ((make_room iso fetch api room google_meet token ≡ some url)
          ↔ Returned (fetch (space_request (api google_meet) token)) (ascii "meetingUri") url)
      × (make_room iso fetch api room jitsi token ≡ none)
unfolding make_room
make_room_iff iso fetch api room token url = (
  string_field_iff (fetch (zoom_request iso (api zoom) token room)) (ascii "join_url") url,
  string_field_iff (fetch (space_request (api google_meet) token)) (ascii "meetingUri") url,
  refl,
)
