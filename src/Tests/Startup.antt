-- ===== src/Tests/Startup.antt =====
-- The start of the server, evaluated on a configuration with one meeting provider.
use tutor_app_back.Push.{PushTransport}
use tutor_app_back.Meetings.Cipher.{Crypto}
use tutor_app_back.Meetings.Accounts.{credentials_for, require_credentials}
use tutor_app_back.Env.{
  EnvData, booted, validate_env, cors_origins_for, is_fcm, is_set, meeting_config, MailTransport,
  StorageDriver, NodeEnv,
}
use tutor_app_back.Env.Started.{offered, validate_env_ready}
use tutor_app_back.Prelude.{◌≡◌, refl, false, not, ◌&&◌, Option, none, some, List, []}
use tutor_app_back.Model.{MeetingProvider, Db}
use tutor_app_back.Model.Text.{Text, ascii}

abbrev configured : EnvData
configured = record {
  node_env = NodeEnv.production;
  cors_origins = none;
  mail_transport = MailTransport.log;
  resend_key = none;
  mail_sender = none;
  api_url = some (ascii "https://api");
  token_secret = some (ascii "a long secret");
  zoom_client_id = some (ascii "id");
  zoom_client_secret = some (ascii "secret");
  google_client_id = none;
  google_client_secret = none;
  storage_driver = StorageDriver.local;
  bucket = none;
  access_key_id = none;
  secret_access_key = none;
  push_transport = PushTransport.log;
  service_account = none;
}

abbrev schema : List (Text × Text) → Option EnvData
schema raw = some configured

-- A cipher that writes the text after its secret, and reads nothing back.
abbrev marking : Text → Crypto
marking secret = record {
  to_utf8 = λ s. s;
  of_utf8 = λ bytes. bytes;
  seal = λ iv plain. (secret, plain);
  unseal = λ iv tag payload. none;
  to_base64 = λ bytes. bytes;
  from_base64 = λ s. s;
}

it_starts : validate_env schema [] ≡ booted configured []
unfolding validate_env
it_starts = refl

validate_env_ready_example :
    (schema [] ≡ some configured)
    × ([] ≡ cors_origins_for none NodeEnv.production)
    × ((is_fcm PushTransport.log && not (is_set none)) ≡ false)
    × (is_set (some (ascii "id")) ≡ is_set (some (ascii "secret")))
    × (is_set none ≡ is_set none)
    × ((p : MeetingProvider) (db : Db)
        → require_credentials (meeting_config marking configured) p db
          ≡ (offered (credentials_for (meeting_config marking configured) p), db))
validate_env_ready_example = validate_env_ready schema [] marking configured [] it_starts
