-- ===== src/Meetings/Accounts/Connecting.antt =====
-- `authorizeUrlFor` of src/meetings/meeting-accounts.service.ts, with what src/meetings/oauth-providers.ts says of
-- each provider. The address is where the provider lives and the parameters that are set on it, in their
-- order; the signature of the state is a library's.
use tutor_app_back.Meetings.Accounts.{Config, Credentials, require_credentials, state_ttl_seconds}
use tutor_app_back.Meetings.Accounts.{redirect_uri}
use tutor_app_back.Prelude.{ℕ, List, [], ◌∷◌}
use tutor_app_back.Prelude.Table.{Key}
use tutor_app_back.Model.{MeetingProvider, zoom, google_meet, jitsi, User, Action, pure, ◌>>=◌}
use tutor_app_back.Model.Text.{Text, ascii}

-- The claims of a state that is to be signed, and how long it lasts.
pub record StateClaims : Type 0 where
  pub sub : Key
  pub provider : MeetingProvider
  pub purpose : Text
  pub expires_in : ℕ

abbrev pub provider_scope : MeetingProvider → Text
provider_scope zoom = ascii "meeting:write:meeting"
provider_scope google_meet = ascii "https://www.googleapis.com/auth/meetings.space.created"
provider_scope jitsi = []

abbrev pub authorize_params : MeetingProvider → List (Text × Text)
authorize_params zoom = []
authorize_params google_meet =
    (ascii "access_type", ascii "offline") ∷ (ascii "prompt", ascii "consent") ∷ []
authorize_params jitsi = []

module _ (c : Config) (authorize : MeetingProvider → Text) (sign : StateClaims → Text) where
  abbrev pub authorize_query : User → MeetingProvider → Credentials → Text → List (Text × Text)
  authorize_query user p k uri =
      (ascii "response_type", ascii "code")
      ∷ (ascii "client_id", k.client_id)
      ∷ (ascii "redirect_uri", uri)
      ∷ (ascii "scope", provider_scope p)
      ∷ (
        ascii "state",
        sign (record {
          sub = user.id;
          provider = p;
          purpose = ascii "meeting-connect";
          expires_in = state_ttl_seconds;
        }),
      )
      ∷ authorize_params p

  unfoldable pub authorize_url_for : User → MeetingProvider → Action (Text × List (Text × Text))
  unfolding require_credentials redirect_uri
  authorize_url_for user p = do
    k ← require_credentials c p
    uri ← redirect_uri c p
    pure (authorize p, authorize_query user p k uri)
