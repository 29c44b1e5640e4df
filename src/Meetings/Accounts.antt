-- ===== src/Meetings/Accounts.antt =====
-- src/meetings/meeting-accounts.service.ts: the accounts that a tutor connected at a provider. The network is
-- a parameter (`ask` posts to a token endpoint, `make_room` and `label` call the provider), and so
-- are the check of a signed state and the random vectors of the cipher.
pub mod Tokens
pub mod Renewal
pub mod Connecting
use tutor_app_back.Meetings.Cipher.{Crypto, encrypt, decrypt}
use tutor_app_back.Prelude.{
  ℕ, ◌+◌, Bool, true, false, not, ◌&&◌, Option, none, some, List, [], ◌∷◌, ◌++◌, ◌==◌,
  if◌then◌else◌, is_some, get_or, filter,
}
use tutor_app_back.Prelude.Int.{ℤ, pos, negsuc, ◌+ℤ◌, leb_ℤ}
use tutor_app_back.Prelude.Table.{Key, Table, modify, append, find_first, find_many, count}
use tutor_app_back.Model.{
  MeetingProvider, zoom, google_meet, jitsi, User, MeetingAccountRow, Db, not_connected,
  cannot_connect, connecting_unset, connection_expired, no_lasting_access, exchange_failed,
  invalid_date, ok, Action, pure, throw, gets, or_throw, ◌>>=◌, ◌>>◌, throw_if, write,
}
use tutor_app_back.Model.Text.{Text, ascii, or_null}

abbrev pub state_ttl_seconds : ℕ
state_ttl_seconds = 600

abbrev pub expiry_slack_ms : ℕ
expiry_slack_ms = 60000

-- `isConnectable`
abbrev pub is_connectable : MeetingProvider → Bool
is_connectable zoom = true
is_connectable google_meet = true
is_connectable jitsi = false

abbrev pub provider_eq : MeetingProvider → MeetingProvider → Bool
provider_eq zoom zoom = true
provider_eq google_meet google_meet = true
provider_eq jitsi jitsi = true
provider_eq _ _ = false

pub record Credentials : Type 0 where
  pub client_id : Text
  pub client_secret : Text

-- The values of the configuration, under `ZOOM` and `GOOGLE`.
pub record Config : Type 0 where
  pub zoom_client_id : Option Text
  pub zoom_client_secret : Option Text
  pub google_client_id : Option Text
  pub google_client_secret : Option Text
  pub crypto : Option Crypto
  pub public_api_url : Option Text

-- `clientId && clientSecret`: the empty text counts as absent.
abbrev pub both : Option Text → Option Text → Option Credentials
both (some (a ∷ s)) (some (b ∷ t)) = some (record { client_id = a ∷ s; client_secret = b ∷ t })
both _ _ = none

unfoldable pub credentials_for : Config → MeetingProvider → Option Credentials
credentials_for c zoom = both c.zoom_client_id c.zoom_client_secret
credentials_for c google_meet = both c.google_client_id c.google_client_secret
credentials_for c jitsi = none

unfoldable pub available_providers : Config → List MeetingProvider
unfolding credentials_for
available_providers c =
    filter (λ (p : MeetingProvider). is_some (credentials_for c p)) (zoom ∷ google_meet ∷ [])

unfoldable pub require_credentials : Config → MeetingProvider → Action Credentials
unfolding credentials_for
require_credentials c p = elim (c.crypto) [
  | none ↦ throw cannot_connect
  | some _ ↦ or_throw (credentials_for c p) cannot_connect
]

-- `replace(/\/$/, '')`
abbrev pub drop_last_slash : Text → Text
drop_last_slash [] = []
drop_last_slash (c ∷ []) = if c == 47 then [] else c ∷ []
drop_last_slash (c ∷ d ∷ s) = c ∷ drop_last_slash (d ∷ s)

abbrev pub provider_name : MeetingProvider → Text
provider_name zoom = ascii "ZOOM"
provider_name google_meet = ascii "GOOGLE_MEET"
provider_name jitsi = ascii "JITSI"

abbrev pub set_text : Option Text → Option Text
set_text none = none
set_text (some s) = or_null s

unfoldable pub redirect_uri : Config → MeetingProvider → Action Text
redirect_uri c p = do
  base ← or_throw (set_text c.public_api_url) connecting_unset
  pure (drop_last_slash base ++ ascii "/api/meetings/callback/" ++ provider_name p)

-- The two grants of the token endpoint.
pub data Grant : Type 0 where
  by_code : Text → Text → Grant
  by_refresh : Text → Grant

-- The fields of an answer that have the right type. The seconds until the token runs out may be any number; here they are
-- thousandths, cut to a whole number as `Date` cuts them.
pub record TokenPayload : Type 0 where
  pub access_token : Option Text
  pub refresh_token : Option Text
  pub expires_in : Option ℤ

pub record TokenSet : Type 0 where
  pub access : Text
  pub refresh : Option Text
  pub expires_in : ℤ

-- The times that a `Date` holds; the database refuses any other.
unfoldable pub is_date : ℤ → Bool
is_date t = leb_ℤ (negsuc 8639999999999999) t && leb_ℤ t (pos 8640000000000000)

abbrev pub tokens_of : TokenPayload → Option TokenSet
tokens_of p = elim (p.access_token) [
  | none ↦ none
  | some t ↦ some (record {
    access = t;
    refresh = p.refresh_token;
    expires_in = get_or p.expires_in (pos 3600000);
  })
]

-- `exchange`: nothing where it throws.
abbrev pub exchange_with :
    (MeetingProvider → Credentials → Grant → Option TokenPayload)
    → Config
    → MeetingProvider
    → Grant
    → Option TokenSet
exchange_with ask c p g = elim (c.crypto) [
  | none ↦ none
  | some _ ↦ elim (credentials_for c p) [
    | none ↦ none
    | some k ↦ elim (ask p k g) [ none ↦ none | some payload ↦ tokens_of payload ]
  ]
]

-- The claims of a verified state.
pub record Claims : Type 0 where
  pub sub : Option Key
  pub provider : Option MeetingProvider
  pub is_connect : Bool

abbrev pub claims_user : MeetingProvider → Option Claims → Option Key
claims_user p none = none
claims_user p (some c) = elim (c.provider) [
  | none ↦ none
  | some q ↦ if c.is_connect && provider_eq q p then c.sub else none
]

abbrev pub is_account : Key → MeetingProvider → Key → MeetingAccountRow → Bool
is_account user p k a = a.user_id == user && provider_eq a.provider p

abbrev pub decrypt_with : Option Crypto → Text → Option Text
decrypt_with none stored = none
decrypt_with (some crypto) stored = decrypt crypto stored

-- The columns that a connection writes, over the row that is there or a blank one.
abbrev pub connected :
    Crypto
    → List ℕ
    → List ℕ
    → Text
    → TokenSet
    → ℤ
    → Option Text
    → MeetingAccountRow
    → MeetingAccountRow
connected crypto iv iv' refresh tokens now label a = record a {
  refresh_token = encrypt crypto iv refresh;
  access_token = some (encrypt crypto iv' tokens.access);
  access_token_expires_at = some (now +ℤ tokens.expires_in);
  account_label = label;
}

abbrev pub blank_account : Key → MeetingProvider → MeetingAccountRow
blank_account user p = record {
  provider = p;
  user_id = user;
  refresh_token = [];
  access_token = none;
  access_token_expires_at = none;
  account_label = none;
}

-- `meetingAccount.upsert` on the user and the provider
abbrev pub put_account : Key → MeetingProvider → (MeetingAccountRow → MeetingAccountRow) → Db → Db
put_account user p f db = elim (find_first (is_account user p) db.meeting_accounts) [
  | some (k, a) ↦ record db { meeting_accounts = modify k f db.meeting_accounts }
  | none ↦ record db {
    meeting_accounts = append db.next_id (f (blank_account user p)) db.meeting_accounts;
    next_id = db.next_id + 1;
  }
]

module _ (c : Config) (ask : MeetingProvider → Credentials → Grant → Option TokenPayload)
    (verify : Text → Option Claims) (label : MeetingProvider → Text → Option Text) where
  -- `completeConnection`, which runs without a caller: the state says whose connection it is.
  unfoldable pub complete_connection :
      ℤ → List ℕ → List ℕ → MeetingProvider → Text → Text → Action (Unit {0})
  unfolding require_credentials redirect_uri encrypt is_date
  complete_connection now iv iv' p code state = do
    require_credentials c p
    user ← or_throw (claims_user p (verify state)) connection_expired
    uri ← redirect_uri c p
    tokens ← or_throw (exchange_with ask c p (by_code code uri)) exchange_failed
    refresh ← or_throw tokens.refresh no_lasting_access
    crypto ← or_throw c.crypto cannot_connect
    throw_if (not (is_date (now +ℤ tokens.expires_in))) invalid_date
    write (put_account user p (connected crypto iv iv' refresh tokens now (label p tokens.access)))

abbrev pub is_connection : Key → MeetingProvider → MeetingAccountRow → Bool
is_connection user p a = a.user_id == user && provider_eq a.provider p

-- `connectionsFor`, before its ordering and the choice of columns
unfoldable pub connections_for : User → Action (Table MeetingAccountRow)
connections_for user =
    gets
      (λ db. find_many (λ a. a.user_id == user.id && is_connectable a.provider) db.meeting_accounts)

-- `disconnect`: the count of the rows that went decides.
unfoldable pub disconnect : User → MeetingProvider → Action (Unit {0})
disconnect user p db =
    if count (is_connection user.id p) db.meeting_accounts == 0 then throw not_connected db else (
      ok tt,
      record db {
        meeting_accounts = find_many (λ a. not (is_connection user.id p a)) db.meeting_accounts;
      },
    )
