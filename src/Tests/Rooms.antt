-- ===== src/Tests/Rooms.antt =====
-- Stored credentials and their renewal, evaluated with a cipher that keeps the text and a code that moves
-- every byte past the dot.
use tutor_app_back.Meetings.Cipher.{Crypto, is_blank, encrypt, decrypt}
use tutor_app_back.Meetings.Cipher.RoundTrip.{IsDotless, IsSound, decrypt-encrypt}
use tutor_app_back.Meetings.Accounts.{Config, Credentials, Grant, TokenPayload, TokenSet}
use tutor_app_back.Meetings.Accounts.Tokens.{renewed, access_token_for}
use tutor_app_back.Meetings.Accounts.Renewal.{
  Dropped, Renewed, Undated, Cached, access_token_for_outcome, renewed_token_is_used,
}
use tutor_app_back.Tests.{north}
use tutor_app_back.Prelude.{ℕ, ◌+◌, ◌-◌, ◌≡◌, refl, ◌⊎◌, Option, none, some, List, [], ◌∷◌, arith}
use tutor_app_back.Prelude.Int.{pos, ◌+ℤ◌, ◌-ℤ◌}
use tutor_app_back.Model.{MeetingProvider, zoom, MeetingAccountRow, Db, ok}
use tutor_app_back.Model.Text.{Text, ascii}

abbrev up : List ℕ → Text
up [] = []
up (b ∷ bytes) = (b + 47) ∷ up bytes

abbrev down : Text → List ℕ
down [] = []
down (c ∷ s) = (c - 47) ∷ down s

abbrev pub plain_crypto : Crypto
plain_crypto = record {
  to_utf8 = λ s. s;
  of_utf8 = λ bytes. bytes;
  seal = λ iv plain. (1 ∷ [], plain);
  unseal = λ iv tag payload. some payload;
  to_base64 = up;
  from_base64 = down;
}

down-up : (bytes : List ℕ) → down (up bytes) ≡ bytes
down-up [] = refl
down-up (b ∷ bytes) = ground (arith, down-up bytes)

up-IsDotless : (bytes : List ℕ) → IsDotless (up bytes)
up-IsDotless [] = refl
up-IsDotless (b ∷ bytes) = ground (arith, up-IsDotless bytes)

up_blank : (bytes : List ℕ) → is_blank (up bytes) ≡ is_blank bytes
up_blank [] = refl
up_blank (b ∷ bytes) = refl

plain_crypto-IsSound : IsSound plain_crypto
plain_crypto-IsSound = record {
  opens = λ iv plain. refl;
  has_tag = λ iv plain. refl;
  has_payload = λ iv plain. refl;
  reads_text = λ s paired. refl;
  blank_text = λ s. refl;
  decodes = down-up;
  dotless = up-IsDotless;
  blank = up_blank;
}

decrypt-encrypt_example :
    decrypt plain_crypto (encrypt plain_crypto (7 ∷ []) (ascii "secret")) ≡ some (ascii "secret")
decrypt-encrypt_example =
    decrypt-encrypt plain_crypto plain_crypto-IsSound (7 ∷ []) (ascii "secret") refl refl

abbrev pub zoom_app : Config
zoom_app = record {
  zoom_client_id = some (ascii "id");
  zoom_client_secret = some (ascii "secret");
  google_client_id = none;
  google_client_secret = none;
  public_api_url = some (ascii "https://api/");
  crypto = some plain_crypto;
}

-- The provider answers a refresh with a new token, good for an hour.
abbrev pub tokens_again : MeetingProvider → Credentials → Grant → Option TokenPayload
tokens_again p credentials grant = some (record {
  access_token = some (ascii "second");
  refresh_token = none;
  expires_in = some (pos 3600000);
})

-- An account whose cached token ran out.
abbrev pub account : MeetingAccountRow
account = record {
  provider = zoom;
  account_label = none;
  refresh_token = encrypt plain_crypto (7 ∷ []) (ascii "refresh");
  access_token = some (encrypt plain_crypto (7 ∷ []) (ascii "first"));
  access_token_expires_at = some (pos 10);
  user_id = 10;
}

abbrev connected : Db
connected = record north { meeting_accounts = (90, account) ∷ [] }

access_token_for_outcome_example :
    let p =
      access_token_for zoom_app tokens_again (pos 1000) (8 ∷ []) (9 ∷ []) 90 account connected in
    Cached zoom_app tokens_again (pos 1000) (8 ∷ []) (9 ∷ []) 90 account connected p
    ⊎ (Renewed zoom_app tokens_again (pos 1000) (8 ∷ []) (9 ∷ []) 90 account connected p
        ⊎ (Dropped zoom_app tokens_again (pos 1000) (8 ∷ []) (9 ∷ []) 90 account connected p
            ⊎ Undated zoom_app tokens_again (pos 1000) (8 ∷ []) (9 ∷ []) 90 account connected p))
access_token_for_outcome_example =
    access_token_for_outcome zoom_app tokens_again (pos 1000) (8 ∷ []) (9 ∷ []) 90 account connected
      refl (refl, tt)

abbrev second : TokenSet
second = record { access = ascii "second"; refresh = none; expires_in = pos 3600000 }

renewed_token_is_used_example :
    access_token_for zoom_app tokens_again
      (pos 2000)
      (10 ∷ [])
      (11 ∷ [])
      90
      (renewed plain_crypto (8 ∷ []) (9 ∷ []) second (pos 1000) account)
      connected
    ≡ (ok (some (ascii "second")), connected)
unfolding ◌-ℤ◌ ◌+ℤ◌
renewed_token_is_used_example =
    renewed_token_is_used zoom_app tokens_again plain_crypto (pos 1000) (pos 2000) (8 ∷ []) (9 ∷ [])
      (10 ∷ []) (11 ∷ []) second 90 account connected refl plain_crypto-IsSound refl refl refl refl
