-- ===== src/Push/Credentials.antt =====
-- src/push/fcm-credentials.ts: the service account and its access token, cached until it nearly expires. The
-- parser of JSON and the token endpoint, which answers to an assertion signed at a time, are parameters.
-- What an endpoint that is not reached or refuses answers is nothing.

use tutor_app_back.Prelude.{ℕ, ◌*◌, Bool, not, Option, none, some, if◌then◌else◌, get_or}
use tutor_app_back.Prelude.Int.{ℤ, pos, ◌+ℤ◌, ◌-ℤ◌, ltb_ℤ}
use tutor_app_back.Model.Text.{Text, or_null}

pub record ServiceAccount : Type 0 where
  pub project_id : Text
  pub client_email : Text
  pub private_key : Text

-- The fields of the parsed object that are strings.
pub record ServiceAccountFields : Type 0 where
  pub project_id : Option Text
  pub client_email : Option Text
  pub private_key : Option Text

-- `typeof account[key] === 'string' && account[key]`
abbrev pub filled : Option Text → Option Text
filled none = none
filled (some s) = or_null s

-- The key stands as it is in the file: the replacement puts a line feed for a line feed.
abbrev pub account_of : ServiceAccountFields → Option ServiceAccount
account_of fields = elim (filled fields.project_id) [
  | none ↦ none
  | some project ↦ elim (filled fields.client_email) [
    | none ↦ none
    | some email ↦ elim (filled fields.private_key) [
      | none ↦ none
      | some key ↦ some (record { project_id = project; client_email = email; private_key = key })
    ]
  ]
]

unfoldable pub parse_service_account :
    (Text → Option ServiceAccountFields) → Text → Option ServiceAccount
parse_service_account parse raw = elim (parse raw) [ none ↦ none | some fields ↦ account_of fields ]

abbrev pub lifetime_seconds : ℕ
lifetime_seconds = 3600

abbrev pub renew_margin_ms : ℕ
renew_margin_ms = 300000

pub record TokenCache : Type 0 where
  pub token : Option Text
  pub expires_at : ℤ

-- A new `AccessTokenCache`
abbrev pub no_token : TokenCache
no_token = record { token = none; expires_at = pos 0 }

-- The body that the token endpoint answers with.
pub record TokenAnswer : Type 0 where
  pub access_token : Option Text
  pub expires_in : Option ℕ

abbrev pub is_renewable : ℤ → TokenCache → Bool
is_renewable now c = not (ltb_ℤ now (c.expires_at -ℤ pos renew_margin_ms))

-- The part behind a cached token that is missing or runs out.
abbrev pub renew : Option TokenAnswer → ℤ → TokenCache → Option Text × TokenCache
renew none now c = (none, c)
renew (some answer) now c = elim (filled answer.access_token) [
  | none ↦ (none, c)
  | some t ↦ (
    some t,
    record {
      token = some t;
      expires_at = now +ℤ pos (get_or answer.expires_in lifetime_seconds * 1000);
    },
  )
]

-- `AccessTokenCache.get`: nothing where it throws.
unfoldable pub get :
    (ServiceAccount → ℤ → Option TokenAnswer)
    → ServiceAccount
    → ℤ
    → TokenCache
    → Option Text × TokenCache
get issue account now c = elim (filled c.token) [
  | none ↦ renew (issue account now) now c
  | some t ↦ if is_renewable now c then renew (issue account now) now c else (some t, c)
]
