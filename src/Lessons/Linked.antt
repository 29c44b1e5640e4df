-- ===== src/Lessons/Linked.antt =====
-- The link of a lesson of src/lessons/lessons.service.ts that is booked with a connected account, through
-- src/meetings/meeting-accounts.service.ts and src/meetings/oauth-providers.ts.
use mathlib.Core.Path.{subst}
use tutor_app_back.Lessons.{
  Outside, RoomRequest, Meeting, meeting_with, room_request, choose_link, topic_for,
}
use tutor_app_back.Meetings.Providers.{MeetingSettings, meeting_link_for}
use tutor_app_back.Meetings.Accounts.{is_account}
use tutor_app_back.Meetings.Accounts.Tokens.{create_room, access_token_for}
use tutor_app_back.Meetings.Endpoints.{
  make_room, make_room_iff, HttpRequest, HttpResponse, Returned, meeting_body, zoom_request,
}
use tutor_app_back.Prelude.{
  ℕ, ◌≡◌, ap, ◌∙◌, ◌↔◌, inl, inr, true, false, Option, none, some, ◌++◌, arith, Option-cases,
}
use tutor_app_back.Prelude.Int.{ℤ}
use tutor_app_back.Prelude.Table.{Key, lookup, find_first}
use tutor_app_back.Model.{
  MeetingProvider, zoom, User, SubjectRow, MeetingAccountRow, Db, Result, ok, Action, pure, >>=-ok,
}
use tutor_app_back.Model.Text.{Text, ascii}

module _ (o : Outside) (iso : ℤ → Text) (fetch : HttpRequest → HttpResponse)
    (api : MeetingProvider → Text) (user : User) (subject : Key) (named : SubjectRow)
    (starts_at : ℤ) (minutes : ℕ) (room_url : Option Text) (id : Key) (a : MeetingAccountRow)
    (token : Text) (db d : Db) where
  -- Settings that name Zoom.
  abbrev pub on_zoom : MeetingSettings
  on_zoom = record { provider = zoom; room_url = room_url }

  -- What Zoom is asked: a meeting of the subject's name, which starts and lasts as the lesson does.
  abbrev pub asked : HttpRequest
  asked = record {
    is_post = true;
    url = api zoom ++ ascii "/v2/users/me/meetings";
    authorization = ascii "Bearer " ++ token;
    body = meeting_body named.name 2 (iso starts_at) minutes (ascii "UTC") true false;
  }

  -- The lesson has the room that Zoom answers, or else the link of the tutor's own settings.
  abbrev pub Linked : Result (Option Meeting) × Db → Type 0
  Linked p =
      ((url : Text)
        → Returned (fetch asked) (ascii "join_url") url
        → p ≡ (ok (some (record { provider = zoom; url = url })), d))
      × (((url : Text) → ¬ Returned (fetch asked) (ascii "join_url") url)
          → p ≡ (ok (meeting_link_for o.parse_url o.random_room (some on_zoom)), d))

  asked-room_request :
      lookup subject db.subjects ≡ some named
      → named.school_id ≡ user.school_id
      → topic_for user (some subject) db ≡ named.name
  unfolding topic_for
  asked-room_request found ours = ground (arith, found, ours)

  meeting_with-choose_link :
      o.make_room ≡ make_room iso fetch api
      → find_first (is_account user.id zoom) db.meeting_accounts ≡ some (id, a)
      → access_token_for o.config o.ask o.now o.vector o.second_vector id a db
        ≡ (ok (some token), d)
      → meeting_with o user (some subject) starts_at minutes on_zoom db ≡ (
        ok (
            choose_link o on_zoom (
              make_room iso fetch api
                (room_request user (some subject) starts_at minutes db)
                zoom
                token)),
        d,
      )
  unfolding meeting_with create_room
  meeting_with-choose_link ours known had =
      let request : RoomRequest = room_request user (some subject) starts_at minutes db in
      let room : MeetingProvider → Text → Option Text = o.make_room request in
      let answer : Option Text → Action (Option Text) =
        λ found. elim found [ none ↦ pure none | some t ↦ pure (room zoom t) ] in
      let made : create_room o.config o.ask o.now o.vector o.second_vector room user zoom db
          ≡ (ok (room zoom token), d) =
        rw (known, create_room)
          (>>=-ok (access_token_for o.config o.ask o.now o.vector o.second_vector id a) answer db d
            had) in
      >>=-ok (create_room o.config o.ask o.now o.vector o.second_vector room user zoom)
        (λ url. pure (choose_link o on_zoom url)) db d made
      ∙ ap
          (λ (f : RoomRequest → MeetingProvider → Text → Option Text).
            (ok (choose_link o on_zoom (f request zoom token)), d))
          ours

  -- When the settings name Zoom, the tutor has an account there and a token for it is had, Zoom is asked with that token
  -- for a scheduled meeting with the name of the lesson's subject, its start and its length. A lesson gets the `join_url` of
  -- an answer of status 2xx that has one, and where there is no such answer the link of the tutor's own settings.
  pub meeting_with-make_room :
      o.make_room ≡ make_room iso fetch api
      → lookup subject db.subjects ≡ some named
      → named.school_id ≡ user.school_id
      → find_first (is_account user.id zoom) db.meeting_accounts ≡ some (id, a)
      → access_token_for o.config o.ask o.now o.vector o.second_vector id a db
        ≡ (ok (some token), d)
      → Linked (meeting_with o user (some subject) starts_at minutes on_zoom db)
  unfolding room_request topic_for
  meeting_with-make_room ours found school known had =
      let request : RoomRequest = room_request user (some subject) starts_at minutes db in
      let room : Option Text = make_room iso fetch api request zoom token in
      let linked = meeting_with-choose_link ours known had in
      let sent : zoom_request iso (api zoom) token request ≡ asked =
        ap
          (λ topic. record asked {
            body = meeting_body topic 2 (iso starts_at) minutes (ascii "UTC") true false;
          })
          (asked-room_request found school) in
      let answers : (url : Text)
          → (room ≡ some url) ↔ Returned (fetch asked) (ascii "join_url") url =
        λ url.
          subst (λ r. (room ≡ some url) ↔ Returned (fetch r) (ascii "join_url") url) sent
            ((make_room_iff iso fetch api request token url).0) in
      (
        λ url returned.
            linked ∙ ap (λ r. (ok (choose_link o on_zoom r), d)) ((answers url).1 returned),
        λ refused. elim (Option-cases room) [
          | inl missing ↦ linked ∙ ap (λ r. (ok (choose_link o on_zoom r), d)) missing
          | inr (url, here) ↦ absurd (refused url ((answers url).0 here))
        ],
      )
