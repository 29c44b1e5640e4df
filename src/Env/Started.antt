-- ===== src/Env/Started.antt =====
-- What a server that started can rely on.
use tutor_app_back.Env.{
  EnvKey, EnvData, Boot, refused, booted, check_env, is_fcm, is_resend, is_s3, is_any, is_set,
  missing_from, resend_required, s3_required, half_pairs, meeting_oauth_pairs, has_provider,
  meeting_required, cors_origins_for, meeting_config, differ, cipher_for,
}
use tutor_app_back.Meetings.Cipher.{Crypto}
use tutor_app_back.Meetings.Accounts.{Credentials, credentials_for, require_credentials, both}
use tutor_app_back.Env.{public_api_url, meeting_token_secret}
use tutor_app_back.Env.{zoom_pair, google_pair, validate_env}
use tutor_app_back.Prelude.{
  ◌≡◌, refl, sym, ap, ◌∙◌, inl, inr, Bool, true, false, not, ◌&&◌, Option, none, some, List, [],
  ◌∷◌, arith, if◌then◌else◌, Bool-cases, Option-cases,
}
use tutor_app_back.Model.{
  MeetingProvider, zoom, google_meet, jitsi, Db, cannot_connect, Result, ok, err, or_throw,
}
use tutor_app_back.Model.Text.{Text}

check-passed :
    (b : Bool) (ks : List EnvKey) (rest : Boot) (d : EnvData) (origins : Text)
    → (if b then refused ks else rest) ≡ booted d origins
    → (b ≡ false) × (rest ≡ booted d origins)
check-passed true ks rest d origins h = absurd (cc)
check-passed false ks rest d origins h = (refl, h)

-- All five checks hold.
abbrev pub Passes : EnvData → Type 0
Passes d =
    ((is_fcm d.push_transport && not (is_set d.service_account)) ≡ false)
    × ((is_resend d.mail_transport && is_any (missing_from (resend_required d))) ≡ false)
    × ((is_s3 d.storage_driver && is_any (missing_from (s3_required d))) ≡ false)
    × (is_any (half_pairs (meeting_oauth_pairs d)) ≡ false)
    × ((has_provider d && is_any (missing_from (meeting_required d))) ≡ false)

booted-same : (c d : EnvData) (x y : Text) → booted c x ≡ booted d y → (c ≡ d) × (x ≡ y)
booted-same c d x y h = ground (arith, h)

check_env-Passes :
    (c d : EnvData) (origins : Text)
    → check_env c ≡ booted d origins
    → Passes c × (booted c (cors_origins_for c.cors_origins c.node_env) ≡ booted d origins)
unfolding check_env
check_env-Passes c d origins h =
    let (push, h₁) = check-passed _ _ _ d origins h in
    let (mail, h₂) = check-passed _ _ _ d origins h₁ in
    let (files, h₃) = check-passed _ _ _ d origins h₂ in
    let (pairs, h₄) = check-passed _ _ _ d origins h₃ in
    let (meetings, h₅) = check-passed _ _ _ d origins h₄ in
    ((push, mail, files, pairs, meetings), h₅)

both-is_set : (a b : Option Text) (k : Credentials) → both a b ≡ some k → is_set a ≡ true
both-is_set none b k h = absurd (cc)
both-is_set (some []) b k h = absurd (cc)
both-is_set (some (c ∷ s)) b k h = refl

cipher_for-ready :
    (make : Text → Crypto) (o : Option Text)
    → is_set o ≡ true
    → (crypto : Crypto) × (cipher_for make o ≡ some crypto)
cipher_for-ready make none h = absurd (cc)
cipher_for-ready make (some []) h = absurd (cc)
cipher_for-ready make (some (c ∷ s)) h = (make (c ∷ s), refl)

second_is_set :
    (k j : EnvKey) (a b : Option Text)
    → is_any (missing_from ((k, a) ∷ (j, b) ∷ [])) ≡ false
    → is_set b ≡ true
second_is_set k j a b h = elim (Bool-cases (is_set b)) [
  | inl yes_set ↦ yes_set
  | inr unset ↦ absurd (ground (arith, h, unset))
]

differ_none : (a b : Bool) → differ a b ≡ false → a ≡ b
differ_none true true h = refl
differ_none true false h = absurd (cc)
differ_none false true h = absurd (cc)
differ_none false false h = refl

whole_pairs :
    (k j : EnvKey) (a b c d : Option Text)
    → is_any (half_pairs ((k, a, b) ∷ (j, c, d) ∷ [])) ≡ false
    → (is_set a ≡ is_set b) × (is_set c ≡ is_set d)
whole_pairs k j a b c d h = elim (Bool-cases (differ (is_set a) (is_set b))) [
  | inl half ↦ absurd (ground (arith, h, half))
  | inr whole ↦ elim (Bool-cases (differ (is_set c) (is_set d))) [
    | inl half ↦ absurd (ground (arith, h, whole, half))
    | inr other_whole ↦
        (differ_none (is_set a) (is_set b) whole, differ_none (is_set c) (is_set d) other_whole)
  ]
]

-- What asking for the credentials of a provider answers where there is a cipher.
abbrev pub offered : Option Credentials → Result Credentials
offered none = err cannot_connect
offered (some k) = ok k

or_throw-offered :
    (o : Option Credentials) (db : Db) → or_throw o cannot_connect db ≡ (offered o, db)
or_throw-offered none db = refl
or_throw-offered (some k) db = refl

module _ (make : Text → Crypto) (d : EnvData) (passes : Passes d) where
  provider_set :
      (p : MeetingProvider) (k : Credentials)
      → credentials_for (meeting_config make d) p ≡ some k
      → has_provider d ≡ true
  unfolding meeting_config credentials_for
  provider_set zoom k h = ground (arith, both-is_set d.zoom_client_id d.zoom_client_secret k h)
  provider_set google_meet k h =
      ground (arith, both-is_set d.google_client_id d.google_client_secret k h)
  provider_set jitsi k h = absurd (cc)

  provider-ready :
      (p : MeetingProvider) (k : Credentials)
      → credentials_for (meeting_config make d) p ≡ some k
      → (crypto : Crypto) × ((meeting_config make d).crypto ≡ some crypto)
  unfolding meeting_config
  provider-ready p k h =
      let given = provider_set p k h in
      cipher_for-ready make d.token_secret (
        second_is_set public_api_url meeting_token_secret d.api_url d.token_secret
          (ground (arith, passes.4, given)))

  require_credentials-offered :
      (p : MeetingProvider) (db : Db)
      → require_credentials (meeting_config make d) p db
        ≡ (offered (credentials_for (meeting_config make d) p), db)
  unfolding require_credentials
  require_credentials-offered p db =
      elim (Option-cases (credentials_for (meeting_config make d) p)) [
        | inl unset ↦ elim (Option-cases (meeting_config make d).crypto) [
          | inl bare ↦ rw (unset, bare, require_credentials) refl
          | inr (crypto, made) ↦ rw (unset, made, require_credentials, unset) refl
        ]
        | inr (k, given) ↦
            let (crypto, made) = provider-ready p k given in
            rw (given, made, require_credentials, given) refl
      ]

validate_env-read :
    (parse : List (Text × Text) → Option EnvData) (raw : List (Text × Text)) (d : EnvData)
    (origins : Text)
    → validate_env parse raw ≡ booted d origins
    → (c : EnvData) × (parse raw ≡ some c) × (check_env c ≡ booted d origins)
unfolding validate_env
validate_env-read parse raw d origins h = elim (Option-cases (parse raw)) [
  | inl unread ↦ absurd (cc)
  | inr (c, found) ↦ (c, found, ground (arith, h, found))
]

-- When the server starts, the configuration is what the schema read, with the origins of the configuration or
-- the default; pushing through FCM has an account; the two values of each meeting provider are both set or
-- both missing; and asking for the credentials of a provider fails only where they are not configured,
-- never for want of a place to keep the tokens.
pub validate_env_ready :
    (parse : List (Text × Text) → Option EnvData) (raw : List (Text × Text)) (make : Text → Crypto)
    (d : EnvData) (origins : Text)
    → validate_env parse raw ≡ booted d origins
    → (parse raw ≡ some d)
      × (origins ≡ cors_origins_for d.cors_origins d.node_env)
      × ((is_fcm d.push_transport && not (is_set d.service_account)) ≡ false)
      × (is_set d.zoom_client_id ≡ is_set d.zoom_client_secret)
      × (is_set d.google_client_id ≡ is_set d.google_client_secret)
      × ((p : MeetingProvider) (db : Db)
          → require_credentials (meeting_config make d) p db
            ≡ (offered (credentials_for (meeting_config make d) p), db))
validate_env_ready parse raw make d origins h =
    let (c, found, checked) = validate_env-read parse raw d origins h in
    let (passes, started) = check_env-Passes c d origins checked in
    let (same, from) = booted-same c d _ origins started in
    let passes' : Passes d = rw (← same) passes in
    let (zoom_whole, google_whole) =
      whole_pairs zoom_pair google_pair d.zoom_client_id d.zoom_client_secret d.google_client_id
        d.google_client_secret passes'.3 in
    (
      found ∙ ap some same,
      sym from ∙ ap (λ (e : EnvData). cors_origins_for e.cors_origins e.node_env) same,
      passes'.0,
      zoom_whole,
      google_whole,
      λ p db. require_credentials-offered make d passes' p db,
    )
