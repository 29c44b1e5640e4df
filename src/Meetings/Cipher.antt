-- ===== src/Meetings/Cipher.antt =====
-- src/meetings/token-cipher.ts: the stored form of a credential. The authenticated encryption and base64url are
-- the platform's: `Crypto` holds the calls that the class makes, under its key.
pub mod RoundTrip
use mathlib.Core.Option
use tutor_app_back.Prelude.{
  ℕ, Bool, true, false, not, ◌||◌, Option, none, List, [], ◌∷◌, ◌++◌, map, ◌==◌, if◌then◌else◌,
}
use tutor_app_back.Model.Text.{Text, ascii, text_eq}

-- The conversions of a text are Node's too. `seal` answers the tag and the encrypted bytes; `unseal` is nothing where the platform throws.
pub record Crypto : Type 0 where
  pub to_utf8 : Text → List ℕ
  pub of_utf8 : List ℕ → Text
  pub seal : List ℕ → List ℕ → List ℕ × List ℕ
  pub unseal : List ℕ → List ℕ → List ℕ → Option (List ℕ)
  pub to_base64 : List ℕ → Text
  pub from_base64 : Text → List ℕ

abbrev pub dot : ℕ
dot = 46

abbrev pub version : Text
version = ascii "v1"

-- `parts.join('.')`
pub join : List Text → Text
join [] = []
join (p ∷ []) = p
join (p ∷ q ∷ ps) = p ++ dot ∷ join (q ∷ ps)

abbrev pub push_char : ℕ → List Text → List Text
push_char c [] = (c ∷ []) ∷ []
push_char c (p ∷ ps) = (c ∷ p) ∷ ps

-- `stored.split('.')`
pub split : Text → List Text
split [] = [] ∷ []
split (c ∷ s) = if c == dot then [] ∷ split s else push_char c (split s)

-- The random initialisation vector comes first.
unfoldable pub encrypt : Crypto → List ℕ → Text → Text
unfolding join
encrypt crypto iv plain =
    let (tag, payload) = crypto.seal iv (crypto.to_utf8 plain) in
    join (version ∷ crypto.to_base64 iv ∷ crypto.to_base64 tag ∷ crypto.to_base64 payload ∷ [])

abbrev pub is_blank : Text → Bool
is_blank [] = true
is_blank (c ∷ s) = false

-- The four first parts, where there are as many.
abbrev pub decrypt_parts : Crypto → List Text → Option Text
decrypt_parts crypto (v ∷ iv ∷ tag ∷ payload ∷ rest) =
    if not (text_eq v version) || is_blank iv || is_blank tag || is_blank payload
    then none
    else Option.map crypto.of_utf8 (
        crypto.unseal (crypto.from_base64 iv) (crypto.from_base64 tag) (crypto.from_base64 payload))
decrypt_parts crypto _ = none

unfoldable pub decrypt : Crypto → Text → Option Text
unfolding split
decrypt crypto stored = decrypt_parts crypto (split stored)
