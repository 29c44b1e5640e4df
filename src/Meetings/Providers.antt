-- ===== src/Meetings/Providers.antt =====
-- src/meetings/meeting-providers.ts: the link that a lesson gets, and why a room address is refused.
-- The URL parser of the platform and the random link of a generated room are parameters.

-- What `new URL` reports of an address.
use tutor_app_back.Prelude.{
  ℕ, ◌+◌, Bool, not, ◌&&◌, ◌||◌, Option, none, some, List, [], ◌∷◌, map, ltb, leb, if◌then◌else◌,
  is_some, length, any,
}
use tutor_app_back.Model.{MeetingProvider, zoom, google_meet, jitsi}
use tutor_app_back.Model.Text.{Text, ascii, trim, text_eq}

pub record Url : Type 0 where
  pub protocol : Text
  pub username : Text
  pub password : Text
  pub hostname : Text

pub data LinkKind : Type 0 where
  personal_room : List Text → LinkKind
  generated : LinkKind

-- `MEETING_PROVIDERS`
abbrev pub meeting_providers : MeetingProvider → LinkKind
meeting_providers zoom = personal_room (ascii "zoom.us" ∷ [])
meeting_providers google_meet = personal_room (ascii "meet.google.com" ∷ [])
meeting_providers jitsi = generated

pub record MeetingSettings : Type 0 where
  pub provider : MeetingProvider
  pub room_url : Option Text

pub record Meeting : Type 0 where
  pub provider : MeetingProvider
  pub url : Text

-- The reasons that `meetingRoomProblem` gives.
pub data RoomProblem : Type 0 where
  takes_no_room too_long no_web_address not_https carries_credentials : RoomProblem
  not_on_host : List Text → RoomProblem

abbrev pub max_room_url : ℕ
max_room_url = 500

-- `toLowerCase` on a host name, which is ASCII after parsing
abbrev pub lower : ℕ → ℕ
lower c = if leb b'A' c && leb c b'Z' then c + 32 else c

-- `s.endsWith(t)`
abbrev pub ends_with : Text → Text → Bool
ends_with [] t = text_eq [] t
ends_with (c ∷ s) t = text_eq (c ∷ s) t || ends_with s t

pub is_host_of : Text → List Text → Bool
is_host_of hostname hosts =
    let host = map lower hostname in
    any (λ allowed. text_eq host allowed || ends_with host (b'.' ∷ allowed)) hosts

-- The part after the parser has answered.
abbrev pub url_problem : List Text → Option Url → Option RoomProblem
url_problem hosts none = some no_web_address
url_problem hosts (some u) =
    if not (text_eq u.protocol (ascii "https:"))
    then some not_https
    else (if not (text_eq u.username []) || not (text_eq u.password [])
        then some carries_credentials
        else (if not (is_host_of u.hostname hosts) then some (not_on_host hosts) else none))

module _ (parse_url : Text → Option Url) where
  abbrev pub room_problem : LinkKind → Option Text → Option RoomProblem
  room_problem generated none = none
  room_problem generated (some url) = some takes_no_room
  room_problem (personal_room hosts) none = none
  room_problem (personal_room hosts) (some url) =
      if text_eq (trim url) []
      then none
      else (if ltb max_room_url (length url)
          then some too_long
          else url_problem hosts (parse_url url))

  pub meeting_room_problem : MeetingProvider → Option Text → Option RoomProblem
  meeting_room_problem provider room_url = room_problem (meeting_providers provider) room_url

  -- `build` is the address that the generated kind makes, at random.
  abbrev link_of : Text → LinkKind → MeetingSettings → Option Meeting
  link_of build generated s = some (record { provider = s.provider; url = build })
  link_of build (personal_room hosts) s = elim (s.room_url) [
    | none ↦ none
    | some url ↦
        if is_some (meeting_room_problem s.provider (some url))
        then none
        else some (record { provider = s.provider; url = url })
  ]

  unfoldable pub meeting_link_for : Text → Option MeetingSettings → Option Meeting
  unfolding meeting_room_problem
  meeting_link_for build none = none
  meeting_link_for build (some s) = link_of build (meeting_providers s.provider) s
