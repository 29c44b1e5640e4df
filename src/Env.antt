-- ===== src/Env.antt =====
-- src/config/env.ts: the checks that refuse to start on a bad configuration. The schema library's reading of the
-- variables is a parameter; of its result the model has what the checks and the modelled services read.
pub mod Started
use tutor_app_back.Push.{PushTransport}
use tutor_app_back.Meetings.Cipher.{Crypto, is_blank}
use tutor_app_back.Meetings.Accounts.{Config}
use tutor_app_back.Prelude.{
  Bool, true, false, not, ◌&&◌, ◌||◌, Option, none, some, List, [], ◌∷◌, if◌then◌else◌,
}
use tutor_app_back.Model.Text.{Text, ascii}

pub data NodeEnv : Type 0 where
  development test production : NodeEnv

pub data MailTransport : Type 0 where
  log resend : MailTransport

pub data StorageDriver : Type 0 where
  local s3 : StorageDriver

-- The names of the variables that the messages list.
pub data EnvKey : Type 0 where
  resend_api_key mail_from s3_bucket s3_access_key_id s3_secret_access_key public_api_url : EnvKey
  meeting_token_secret zoom_pair google_pair fcm_service_account : EnvKey

-- What the schema reads.
pub record EnvData : Type 0 where
  pub node_env : NodeEnv
  pub cors_origins : Option Text
  pub mail_transport : MailTransport
  pub resend_key : Option Text
  pub mail_sender : Option Text
  pub api_url : Option Text
  pub token_secret : Option Text
  pub zoom_client_id : Option Text
  pub zoom_client_secret : Option Text
  pub google_client_id : Option Text
  pub google_client_secret : Option Text
  pub storage_driver : StorageDriver
  pub bucket : Option Text
  pub access_key_id : Option Text
  pub secret_access_key : Option Text
  pub push_transport : PushTransport
  pub service_account : Option Text

-- `Boolean(value)`: the empty text counts as absent.
abbrev pub is_set : Option Text → Bool
is_set none = false
is_set (some s) = not (is_blank s)

abbrev pub is_fcm : PushTransport → Bool
is_fcm PushTransport.log = false
is_fcm PushTransport.fcm = true

abbrev pub is_resend : MailTransport → Bool
is_resend log = false
is_resend resend = true

abbrev pub is_s3 : StorageDriver → Bool
is_s3 local = false
is_s3 s3 = true

abbrev pub default_origins : NodeEnv → Text
default_origins production = []
default_origins development = ascii "*"
default_origins test = ascii "*"

abbrev pub cors_origins_for : Option Text → NodeEnv → Text
cors_origins_for (some configured) env = configured
cors_origins_for none env = default_origins env

-- `keys.filter((key) => !data[key])`
abbrev pub missing_from : List (EnvKey × Option Text) → List EnvKey
missing_from [] = []
missing_from ((k, v) ∷ rows) = if is_set v then missing_from rows else k ∷ missing_from rows

abbrev pub resend_required : EnvData → List (EnvKey × Option Text)
resend_required d = (resend_api_key, d.resend_key) ∷ (mail_from, d.mail_sender) ∷ []

abbrev pub s3_required : EnvData → List (EnvKey × Option Text)
s3_required d =
    (s3_bucket, d.bucket)
    ∷ (s3_access_key_id, d.access_key_id)
    ∷ (s3_secret_access_key, d.secret_access_key)
    ∷ []

abbrev pub meeting_required : EnvData → List (EnvKey × Option Text)
meeting_required d = (public_api_url, d.api_url) ∷ (meeting_token_secret, d.token_secret) ∷ []

-- `MEETING_OAUTH_PAIRS`
abbrev pub meeting_oauth_pairs : EnvData → List (EnvKey × Option Text × Option Text)
meeting_oauth_pairs d =
    (zoom_pair, d.zoom_client_id, d.zoom_client_secret)
    ∷ (google_pair, d.google_client_id, d.google_client_secret)
    ∷ []

-- `a !== b`
abbrev pub differ : Bool → Bool → Bool
differ true b = not b
differ false b = b

abbrev pub half_pairs : List (EnvKey × Option Text × Option Text) → List EnvKey
half_pairs [] = []
half_pairs ((k, id, secret) ∷ rows) =
    if differ (is_set id) (is_set secret) then k ∷ half_pairs rows else half_pairs rows

abbrev pub has_provider : EnvData → Bool
has_provider d = is_set d.zoom_client_id || is_set d.google_client_id

abbrev pub is_any : List EnvKey → Bool
is_any [] = false
is_any (k ∷ ks) = true

pub data Boot : Type 0 where
  -- The schema refused.
  unreadable : Boot
  -- The variables of the message.
  refused : List EnvKey → Boot
  -- With the origins that may call.
  booted : EnvData → Text → Boot

-- The checks behind the schema, in their order.
unfoldable pub check_env : EnvData → Boot
check_env d =
    if is_fcm d.push_transport && not (is_set d.service_account)
    then refused (fcm_service_account ∷ [])
    else (if is_resend d.mail_transport && is_any (missing_from (resend_required d))
        then refused (missing_from (resend_required d))
        else (if is_s3 d.storage_driver && is_any (missing_from (s3_required d))
            then refused (missing_from (s3_required d))
            else (if is_any (half_pairs (meeting_oauth_pairs d))
                then refused (half_pairs (meeting_oauth_pairs d))
                else (if has_provider d && is_any (missing_from (meeting_required d))
                    then refused (missing_from (meeting_required d))
                    else booted d (cors_origins_for d.cors_origins d.node_env)))))

-- Environment variables are texts under names.
unfoldable pub validate_env : (List (Text × Text) → Option EnvData) → List (Text × Text) → Boot
unfolding check_env
validate_env parse raw = elim (parse raw) [ none ↦ unreadable | some d ↦ check_env d ]

-- What the service of meeting accounts makes of the configuration when it is constructed.
abbrev pub cipher_for : (Text → Crypto) → Option Text → Option Crypto
cipher_for make none = none
cipher_for make (some s) = if is_blank s then none else some (make s)

unfoldable pub meeting_config : (Text → Crypto) → EnvData → Config
meeting_config make d = record {
  zoom_client_id = d.zoom_client_id;
  zoom_client_secret = d.zoom_client_secret;
  google_client_id = d.google_client_id;
  google_client_secret = d.google_client_secret;
  public_api_url = d.api_url;
  crypto = cipher_for make d.token_secret;
}
