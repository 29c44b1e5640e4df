-- ===== src/Push.antt =====
-- src/push/push.service.ts: notifications to devices through FCM. The network is a parameter, as what a
-- request was answered with, nothing where it threw; the token endpoint and the parser are parameters as
-- in `Credentials`. Logging is left out.
pub mod Credentials
pub mod Devices
pub mod Delivery
use tutor_app_back.Push.Credentials.{
  ServiceAccount, ServiceAccountFields, parse_service_account, TokenCache, no_token, TokenAnswer,
}
use tutor_app_back.Prelude.{
  ℕ, zero, suc, ◌+◌, Bool, not, ◌||◌, Option, none, some, List, [], ◌∷◌, ◌++◌, ltb, if◌then◌else◌,
  get_or, length, any, take, skip,
}
use tutor_app_back.Prelude.Int.{ℤ}
use tutor_app_back.Model.Text.{Text, ascii, or_null, text_eq}

pub record PushMessage : Type 0 where
  pub to : Text
  pub title : Text
  pub body : Text
  pub payload : List (Text × Text)
  pub channel_id : Option Text

pub data PushTransport : Type 0 where
  log fcm : PushTransport

abbrev pub concurrency : ℕ
concurrency = 10

-- `DEAD_TOKEN_ERRORS`
abbrev pub dead_token_errors : List Text
dead_token_errors = ascii "NOT_FOUND" ∷ ascii "UNREGISTERED" ∷ ascii "INVALID_ARGUMENT" ∷ []

-- The body of a request. `payload` is the `data` of the source, with its values printed.
pub record FcmMessage : Type 0 where
  pub token : Text
  pub title : Text
  pub body : Text
  pub channel_id : Option Text
  pub payload : List (Text × Text)

abbrev pub body_for : PushMessage → FcmMessage
body_for m = record {
  token = m.to;
  title = m.title;
  body = m.body;
  channel_id = elim (m.channel_id) [ none ↦ none | some c ↦ or_null c ];
  payload = m.payload;
}

-- An answer of FCM: whether it is a success, the printed status code, and the status named in its body.
pub record FcmResponse : Type 0 where
  pub is_success : Bool
  pub code : Text
  pub status : Option Text

-- The configuration that sending reads.
pub record PushConfig : Type 0 where
  pub transport : PushTransport
  pub service_account : Option Text

-- The credentials that the service has built, with their cached token.
abbrev pub PushState : Type 0
PushState = Option (ServiceAccount × TokenCache)

module _ (fetch : Text → Text → FcmMessage → Option FcmResponse) where
  -- The token to retire, or nothing.
  abbrev pub send_one : Text → Text → PushMessage → Option Text
  send_one project token m = elim (fetch project token (body_for m)) [
    | none ↦ none
    | some r ↦
        if r.is_success || not (any (λ e. text_eq e (get_or r.status r.code)) dead_token_errors)
        then none
        else some m.to
  ]

  -- The outcomes of some messages, without those that retire nothing.
  abbrev pub retired_among : Text → Text → List PushMessage → List Text
  retired_among project token [] = []
  retired_among project token (m ∷ ms) = elim (send_one project token m) [
    | none ↦ retired_among project token ms
    | some t ↦ t ∷ retired_among project token ms
  ]

  -- The loop over slices of the messages, from an index. Nothing says that the fuel ran out.
  pub send_slices : Text → Text → List PushMessage → ℕ → ℕ → List Text → Option (List Text)
  send_slices project token ms zero index retired =
      if ltb index (length ms) then none else some retired
  send_slices project token ms (suc fuel) index retired =
      let rest =
        send_slices project token ms fuel (index + concurrency)
          (retired ++ retired_among project token (take concurrency (skip index ms))) in
      if ltb index (length ms) then rest else some retired

  module _ (parse : Text → Option ServiceAccountFields)
      (issue : ServiceAccount → ℤ → Option TokenAnswer) (c : PushConfig) where
    -- `FCM_SERVICE_ACCOUNT`, where it is set
    abbrev pub account_from : Option Text → Option ServiceAccount
    account_from none = none
    account_from (some raw) = elim (or_null raw) [
      | none ↦ none
      | some s ↦ parse_service_account parse s
    ]

    -- Nothing where it throws.
    abbrev pub resolve_credentials : PushState → Option (ServiceAccount × TokenCache)
    resolve_credentials (some held) = some held
    resolve_credentials none = elim (account_from c.service_account) [
      | none ↦ none
      | some account ↦ some (account, no_token)
    ]

    -- The project and the access token, where they can be had, and the state afterwards.
    unfoldable pub authenticate : ℤ → PushState → Option (Text × Text) × PushState
    unfolding parse_service_account Credentials.get
    authenticate now st = elim (resolve_credentials st) [
      | none ↦ (none, st)
      | some (account, cache) ↦
          let (answer, cache') = Credentials.get issue account now cache in
          elim answer [
            | none ↦ (none, some (account, cache'))
            | some token ↦ (some (account.project_id, token), some (account, cache'))
          ]
    ]

    -- The loop over all slices, where the service could authenticate. The fuel is the number of messages, and
    -- `none` says that it ran out.
    unfoldable pub send_as :
        Option (Text × Text) → List PushMessage → PushState → Option (List Text) × PushState
    unfolding send_slices
    send_as none ms st = (some [], st)
    send_as (some (project, token)) ms st = (send_slices project token ms (length ms) 0 [], st)

    unfoldable pub send_through :
        PushTransport → ℤ → List PushMessage → PushState → Option (List Text) × PushState
    unfolding authenticate send_as
    send_through log now ms st = (some [], st)
    send_through fcm now ms st = let (access, st') = authenticate now st in send_as access ms st'

    unfoldable pub send : ℤ → List PushMessage → PushState → Option (List Text) × PushState
    unfolding send_through
    send now [] st = (some [], st)
    send now (m ∷ ms) st = send_through c.transport now (m ∷ ms) st
