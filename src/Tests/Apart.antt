-- ===== src/Tests/Apart.antt =====
-- Two schools kept apart over calls, and a lesson with a room, evaluated on the small school.
use tutor_app_back.Tenancy.{
  IsSeparate, Platform, Reach, here, next, books, adds_member, removes_student,
}
use tutor_app_back.Tenancy.Invariant.{Reach-IsSeparate}
use tutor_app_back.Students
use tutor_app_back.Groups
use tutor_app_back.Lessons
use tutor_app_back.Lessons.{Outside, CreateLesson, meeting_with}
use tutor_app_back.Lessons.Linked.{Linked, meeting_with-make_room}
use tutor_app_back.Meetings.Endpoints.{make_room, HttpRequest, HttpResponse}
use tutor_app_back.Meetings.Accounts.Tokens.{access_token_for}
use tutor_app_back.Meetings.Cipher.{encrypt, decrypt}
use tutor_app_back.Tests.Rooms.{account, zoom_app, tokens_again}
use tutor_app_back.Tests.{teacher, head, north, subject_row}
use tutor_app_back.Prelude.{◌≡◌, refl, true, none, some, [], ◌∷◌, arith}
use tutor_app_back.Prelude.Int.{ℤ, pos, ◌-ℤ◌}
use tutor_app_back.Model.{MeetingProvider, zoom, MeetingAccountRow, Db, ok}
use tutor_app_back.Model.Text.{Text, ascii, text_eq}

north-IsSeparate : IsSeparate north
north-IsSeparate = record {
  subjects_below = (omega arith, (omega arith, tt));
  students_below = (omega arith, (omega arith, tt));
  groups_below = (omega arith, tt);
  students_inside = refl;
  groups_inside = refl;
  lessons_inside = refl;
  members_inside = refl;
}

abbrev answer_room : HttpRequest → HttpResponse
answer_room r = record { is_ok = true; json = some (λ name. some (ascii "https://zoom.us/j/1")) }

abbrev zoom_api : MeetingProvider → Text
zoom_api p = ascii "https://api.zoom.us"

abbrev instant : ℤ → Text
instant t = ascii "2026-01-01T00:00:00.000Z"

abbrev offline : Outside
offline = record {
  parse_url = λ s. none;
  random_room = ascii "room";
  read_config = λ s. none;
  config = zoom_app;
  ask = tokens_again;
  make_room = make_room instant answer_room zoom_api;
  now = pos 0;
  vector = 1 ∷ [];
  second_vector = 2 ∷ [];
}

abbrev server : Platform
server = record { same_name = text_eq; outside = offline }

abbrev for_bo : CreateLesson
for_bo = record {
  student_id = some 20;
  group_id = none;
  subject_id = some 51;
  starts_at = pos 5000;
  duration_minutes = 60;
}

-- A lesson is booked, a student joins the group again, and a student goes.
abbrev one_booked : Db
one_booked = (Lessons.create offline teacher for_bo north).1

abbrev one_joined : Db
one_joined = (Groups.add_member teacher 30 20 one_booked).1

abbrev one_gone : Db
one_gone = (Students.remove head 20 one_joined).1

busy_day : Reach server north one_gone
busy_day =
    next (next (next here (books teacher for_bo north)) (adds_member teacher 30 20 one_booked))
      (removes_student head 20 one_joined)

Reach-IsSeparate_example : IsSeparate one_gone
Reach-IsSeparate_example = Reach-IsSeparate server north-IsSeparate busy_day

-- An account with a token that does not run out soon.
abbrev fresh_account : MeetingAccountRow
fresh_account = record account { access_token_expires_at = some (pos 100000) }

abbrev connected : Db
connected = record north { meeting_accounts = (90, fresh_account) ∷ [] }

had_token :
    access_token_for zoom_app tokens_again (pos 0) (1 ∷ []) (2 ∷ []) 90 fresh_account connected
    ≡ (ok (some (ascii "first")), connected)
unfolding access_token_for encrypt decrypt ◌-ℤ◌
had_token = refl

meeting_with-make_room_example :
    Linked offline instant answer_room zoom_api teacher 50
      (subject_row "Algebra")
      (pos 5000)
      60
      none
      90
      fresh_account
      (ascii "first")
      connected
      connected
      (meeting_with offline teacher
        (some 50)
        (pos 5000)
        60
        (record { provider = zoom; room_url = none })
        connected)
meeting_with-make_room_example =
    meeting_with-make_room offline instant answer_room zoom_api teacher 50 (subject_row "Algebra")
      (pos 5000) 60 none 90 fresh_account (ascii "first") connected connected refl refl refl refl
      had_token
