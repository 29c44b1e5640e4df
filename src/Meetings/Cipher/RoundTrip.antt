-- ===== src/Meetings/Cipher/RoundTrip.antt =====
-- What `TokenCipher` of src/meetings/token-cipher.ts encrypted, it decrypts again.
use tutor_app_back.Meetings.Cipher.{
  Crypto, dot, version, join, split, encrypt, is_blank, decrypt_parts, decrypt,
}
use tutor_app_back.Prelude.{
  ℕ, ◌≡◌, refl, ap, ◌∙◌, Bool, true, false, not, ◌&&◌, none, some, List, [], ◌∷◌, ◌++◌, arith, leb,
  if◌then◌else◌, contains,
}
use tutor_app_back.Model.Text.{Text}

-- No dot in a text.
abbrev pub IsDotless : Text → Type 0
IsDotless s = contains dot s ≡ false

abbrev is_between : ℕ → ℕ → ℕ → Bool
is_between low high c = leb low c && leb c high

-- Every surrogate of the text is one of a pair.
abbrev pub is_well_formed : Text → Bool
is_well_formed [] = true
is_well_formed (c ∷ []) = not (is_between 0xd800 0xdfff c)
is_well_formed (c ∷ d ∷ s) =
    if is_between 0xd800 0xdbff c
    then is_between 0xdc00 0xdfff d && is_well_formed s
    else not (is_between 0xdc00 0xdfff c) && is_well_formed (d ∷ s)

-- What Node documents of AES-GCM, of base64url and of UTF-8. A vector has twelve bytes and a tag sixteen, and the
-- encrypted bytes are as many as those that were given. UTF-8 has a form for every text without a lone surrogate.
pub record IsSound (crypto : Crypto) : Type 0 where
  pub opens :
      (iv plain : List ℕ)
      → let (tag, payload) = crypto.seal iv plain in crypto.unseal iv tag payload ≡ some plain
  pub has_tag : (iv plain : List ℕ) → is_blank (crypto.seal iv plain).0 ≡ false
  pub has_payload : (iv plain : List ℕ) → is_blank (crypto.seal iv plain).1 ≡ is_blank plain
  pub reads_text : (s : Text) → is_well_formed s ≡ true → crypto.of_utf8 (crypto.to_utf8 s) ≡ s
  pub blank_text : (s : Text) → is_blank (crypto.to_utf8 s) ≡ is_blank s
  pub decodes : (bytes : List ℕ) → crypto.from_base64 (crypto.to_base64 bytes) ≡ bytes
  pub dotless : (bytes : List ℕ) → IsDotless (crypto.to_base64 bytes)
  pub blank : (bytes : List ℕ) → is_blank (crypto.to_base64 bytes) ≡ is_blank bytes

split-dotless : (s : Text) → IsDotless s → split s ≡ s ∷ []
unfolding split
split-dotless [] h = refl
split-dotless (c ∷ s) h = ground (arith, split-dotless s)

split-append : (s rest : Text) → IsDotless s → split (s ++ dot ∷ rest) ≡ s ∷ split rest
unfolding split
split-append [] rest h = refl
split-append (c ∷ s) rest h = ground (arith, split-append s rest)

split-join :
    (a b c d : Text)
    → IsDotless a
    → IsDotless b
    → IsDotless c
    → IsDotless d
    → split (join (a ∷ b ∷ c ∷ d ∷ [])) ≡ a ∷ b ∷ c ∷ d ∷ []
unfolding join
split-join a b c d ha hb hc hd =
    split-append a _ ha
    ∙ ap (λ t. a ∷ t)
        (split-append b _ hb
          ∙ ap (λ t. b ∷ t) (split-append c d hc ∙ ap (λ t. c ∷ t) (split-dotless d hd)))

module _ (crypto : Crypto) (sound : IsSound crypto) (iv : List ℕ) (plain : Text) where
  abbrev tag : List ℕ
  tag = (crypto.seal iv (crypto.to_utf8 plain)).0

  abbrev payload : List ℕ
  payload = (crypto.seal iv (crypto.to_utf8 plain)).1

  decrypt-parts_of :
      decrypt crypto (encrypt crypto iv plain)
      ≡ decrypt_parts crypto
          (version ∷ crypto.to_base64 iv ∷ crypto.to_base64 tag ∷ crypto.to_base64 payload ∷ [])
  unfolding decrypt encrypt
  decrypt-parts_of = ap (decrypt_parts crypto) (
      split-join version (crypto.to_base64 iv) (crypto.to_base64 tag) (crypto.to_base64 payload)
        refl (sound.dotless iv) (sound.dotless tag) (sound.dotless payload))

  -- Under a sound platform and a vector that is not empty, `decrypt` reads back every text without a lone surrogate that
  -- `encrypt` was given, except the empty one, for which it answers null.
  pub decrypt-encrypt :
      is_blank iv ≡ false
      → is_well_formed plain ≡ true
      → decrypt crypto (encrypt crypto iv plain) ≡ (if is_blank plain then none else some plain)
  decrypt-encrypt vector paired =
      decrypt-parts_of
      ∙ rw
          (
            sound.blank iv,
            sound.blank tag,
            sound.blank payload,
            vector,
            sound.has_tag iv (crypto.to_utf8 plain),
            sound.has_payload iv (crypto.to_utf8 plain),
            sound.blank_text plain,
            sound.decodes iv,
            sound.decodes tag,
            sound.decodes payload,
            sound.opens iv (crypto.to_utf8 plain),
            sound.reads_text plain paired,
          )
          refl
