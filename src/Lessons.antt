-- ===== src/Lessons.antt =====
-- src/lessons/lessons.service.ts: booking, reading and moving lessons. Instants are milliseconds.
-- What a booking takes from outside is one record.
pub mod Linked
use tutor_app_back.Subjects.{resolve}
use mathlib.Core.Option
use tutor_app_back.Students
use tutor_app_back.Users.{UserConfig, parse_user_config}
use tutor_app_back.Meetings.Accounts.{Config, Credentials, Grant, TokenPayload}
use tutor_app_back.Meetings.Accounts.Tokens.{create_room}
use tutor_app_back.Groups
use tutor_app_back.Meetings.Providers.{Url, Meeting, MeetingSettings, meeting_link_for}
use tutor_app_back.Prelude.{
  ℕ, ◌+◌, ◌*◌, Bool, true, false, not, ◌&&◌, ◌||◌, Option, none, some, List, [], ◌∷◌, ltb, ◌==◌,
  if◌then◌else◌, get_or, length, any, contains,
}
use tutor_app_back.Prelude.Int.{ℤ, pos, ◌+ℤ◌, ◌-ℤ◌, ltb_ℤ, leb_ℤ}
use tutor_app_back.Prelude.Table.{Key, Table, lookup, modify, append, find_many}
use tutor_app_back.Model.{
  is_admin, LessonStatus, scheduled, MeetingProvider, User, SubjectRow, MemberRow, LessonRow, Db,
  lesson_not_found, one_student_or_group, window_ends_before_start, window_too_long,
  too_many_calendars, ok, Action, pure, throw, gets, ◌>>=◌, ◌>>◌, throw_if, write, is_key,
}
use tutor_app_back.Model.Text.{Text, ascii}

abbrev pub day_ms : ℕ
day_ms = 24 * 60 * 60 * 1000

abbrev pub max_window_days : ℕ
max_window_days = 400

abbrev pub default_window_days : ℕ
default_window_days = 30

abbrev pub max_tutor_filters : ℕ
max_tutor_filters = 50

pub record Window : Type 0 where
  pub from : ℤ
  pub to : ℤ

pub record ListLessonsQuery : Type 0 where
  pub from : Option ℤ
  pub to : Option ℤ
  -- the ids of the comma-separated list, trimmed, the empty ones dropped
  pub tutor_ids : Option (List Key)

-- The window of a calendar request: it defaults forwards from the start of today.
abbrev pub calendar_window : ℤ → ListLessonsQuery → Window
calendar_window start_of_today q =
    let from = get_or q.from start_of_today in
    record { from = from; to = get_or q.to (from +ℤ pos (default_window_days * day_ms)) }

abbrev pub starts_within : Window → LessonRow → Bool
starts_within w l = leb_ℤ w.from l.starts_at && ltb_ℤ l.starts_at w.to

-- Whose lessons a request covers: the tutors it names, or for an admin the school, or the caller.
abbrev pub in_scope : User → Option (List Key) → LessonRow → Bool
in_scope user (some (t ∷ ts)) l = contains l.tutor_id (t ∷ ts)
in_scope user none l = is_admin user.role || l.tutor_id == user.id
in_scope user (some []) l = is_admin user.role || l.tutor_id == user.id

abbrev pub filter_count : Option (List Key) → ℕ
filter_count none = 0
filter_count (some ts) = length ts

unfoldable pub find_in_range : ℤ → User → ListLessonsQuery → Action (Table LessonRow)
find_in_range start_of_today user q = do
  let w = calendar_window start_of_today q
  throw_if (leb_ℤ w.to w.from) window_ends_before_start
  throw_if (ltb_ℤ (pos (max_window_days * day_ms)) (w.to -ℤ w.from)) window_too_long
  throw_if (ltb max_tutor_filters (filter_count q.tutor_ids)) too_many_calendars
  gets (λ db.
      find_many
        (λ l. l.school_id == user.school_id && (starts_within w l && in_scope user q.tutor_ids l))
        db.lessons)

-- The lessons of a student: their own and those of every group they are in.
abbrev pub concerns : Key → List MemberRow → LessonRow → Bool
concerns student ms l =
    is_key student l.student_id
    || any (λ m. is_key m.group_id l.group_id && m.student_id == student) ms

-- The rows behind `findForStudent`, before its ordering and its limit.
unfoldable pub find_for_student : User → Key → Action (Table LessonRow)
unfolding Students.find_one
find_for_student user student = do
  Students.find_one user student
  gets (λ db. find_many (concerns student db.members) db.lessons)

unfoldable pub find_reachable : User → Key → Action LessonRow
find_reachable user id db = elim (lookup id db.lessons) [
  | none ↦ throw lesson_not_found db
  | some l ↦
      if not (l.school_id == user.school_id)
      then throw lesson_not_found db
      else (if not (l.tutor_id == user.id) && not (is_admin user.role)
          then throw lesson_not_found db
          else pure l db)
]

abbrev pub set_status : LessonStatus → LessonRow → LessonRow
set_status status l = record l { status = status }

unfoldable pub update_status : User → Key → LessonStatus → Action LessonRow
unfolding find_reachable
update_status user id status = do
  l ← find_reachable user id
  write (λ db. record db { lessons = modify id (set_status status) db.lessons })
  pure (set_status status l)

-- `group.members.map(...)`
abbrev pub member_ids : Key → List MemberRow → List Key
member_ids group [] = []
member_ids group (m ∷ ms) =
    if m.group_id == group then m.student_id ∷ member_ids group ms else member_ids group ms

abbrev pub attendee_ids : LessonRow → List MemberRow → List Key
attendee_ids l ms = elim (l.student_id) [
  | some s ↦ s ∷ []
  | none ↦ elim (l.group_id) [ some g ↦ member_ids g ms | none ↦ [] ]
]

unfoldable pub student_ids_for : Key → Db → List Key
student_ids_for id db = elim (lookup id db.lessons) [
  | none ↦ []
  | some l ↦ attendee_ids l db.members
]

pub record CreateLesson : Type 0 where
  pub student_id : Option Key
  pub group_id : Option Key
  pub subject_id : Option Key
  pub starts_at : ℤ
  pub duration_minutes : ℕ

-- `topicFor`: the subject of the caller's school, or the word for a lesson.
abbrev pub subject_topic : Key → Option SubjectRow → Text
subject_topic school none = ascii "Lesson"
subject_topic school (some s) = if s.school_id == school then s.name else ascii "Lesson"

unfoldable pub topic_for : User → Option Key → Db → Text
topic_for user none db = ascii "Lesson"
topic_for user (some id) db = subject_topic user.school_id (lookup id db.subjects)

-- What a provider is asked for.
pub record RoomRequest : Type 0 where
  pub topic : Text
  pub starts_at : ℤ
  pub duration_minutes : ℕ

-- The platform, the network and the chance of one booking: the parser of addresses, a random room, the
-- parser of the settings, the clock, and what `Meetings.Accounts.Tokens` takes.
pub record Outside : Type 0 where
  pub parse_url : Text → Option Url
  pub random_room : Text
  pub read_config : Text → Option UserConfig
  pub config : Config
  pub ask : MeetingProvider → Credentials → Grant → Option TokenPayload
  pub make_room : RoomRequest → MeetingProvider → Text → Option Text
  pub now : ℤ
  pub vector : List ℕ
  pub second_vector : List ℕ

-- The room of the connected account, or else the room of the settings.
abbrev pub choose_link : Outside → MeetingSettings → Option Text → Option Meeting
choose_link o s none = meeting_link_for o.parse_url o.random_room (some s)
choose_link o s (some url) = some (record { provider = s.provider; url = url })

abbrev pub room_request : User → Option Key → ℤ → ℕ → Db → RoomRequest
unfolding topic_for
room_request user subject starts_at minutes db = record {
  topic = topic_for user subject db;
  starts_at = starts_at;
  duration_minutes = minutes;
}

-- `meetingFor` with settings: a failed room falls back to the settings.
unfoldable pub meeting_with :
    Outside → User → Option Key → ℤ → ℕ → MeetingSettings → Action (Option Meeting)
unfolding create_room
meeting_with o user subject starts_at minutes s db =
    let request = room_request user subject starts_at minutes db in
    (create_room o.config o.ask o.now o.vector o.second_vector (o.make_room request) user s.provider
        >>= λ made. pure (choose_link o s made))
      db

abbrev pub meeting_from :
    Outside → User → Option Key → ℤ → ℕ → Option MeetingSettings → Action (Option Meeting)
meeting_from o user subject starts_at minutes none = pure none
meeting_from o user subject starts_at minutes (some s) =
    meeting_with o user subject starts_at minutes s

unfoldable pub meeting_for : Outside → User → Option Key → ℤ → ℕ → Action (Option Meeting)
unfolding meeting_with parse_user_config
meeting_for o user subject starts_at minutes =
    meeting_from o user subject starts_at minutes
      ((parse_user_config o.read_config user.config).meeting)

abbrev pub booked : User → CreateLesson → Option Key → Option Meeting → LessonRow
booked user dto subject meeting = record {
  starts_at = dto.starts_at;
  duration_minutes = dto.duration_minutes;
  status = scheduled;
  school_id = user.school_id;
  tutor_id = user.id;
  subject_id = subject;
  student_id = none;
  group_id = none;
  topic = none;
  homework = none;
  meeting_url = Option.map (λ (m : Meeting). m.url) meeting;
  meeting_provider = Option.map (λ (m : Meeting). m.provider) meeting;
}

abbrev pub insert_lesson : LessonRow → Action LessonRow
insert_lesson l db =
    (ok l, record db { lessons = append db.next_id l db.lessons; next_id = db.next_id + 1 })

-- `(a === undefined) === (b === undefined)`
abbrev pub same_presence : Option Key → Option Key → Bool
same_presence none none = true
same_presence (some _) (some _) = true
same_presence none (some _) = false
same_presence (some _) none = false

-- The part of `create` behind the first guard, by who the lesson is for.
abbrev pub book_for : User → CreateLesson → LessonRow → Action LessonRow
book_for user dto l = elim (dto.group_id) [
  | some g ↦ Groups.find_one user g >> insert_lesson (record l { group_id = some g })
  | none ↦ elim (dto.student_id) [
    | some s ↦ Students.find_one user s >> insert_lesson (record l { student_id = some s })
    | none ↦ throw one_student_or_group
  ]
]

unfoldable pub create : Outside → User → CreateLesson → Action LessonRow
unfolding resolve Groups.find_one Students.find_one meeting_for
create o user dto = do
  throw_if (same_presence dto.student_id dto.group_id) one_student_or_group
  subject ← resolve user dto.subject_id none
  meeting ← meeting_for o user subject dto.starts_at dto.duration_minutes
  book_for user dto (booked user dto subject meeting)
