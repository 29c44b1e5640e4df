-- ===== src/Files/Signatures.antt =====
-- src/files/file-signatures.ts: whether the bytes of a file look like its declared type. A byte is a
-- number, a media type the text of its name.
use tutor_app_back.Prelude.{
  ℕ, zero, suc, ◌+◌, Bool, true, false, not, ◌&&◌, Option, none, some, List, [], ◌∷◌, ltb, ◌==◌,
  if◌then◌else◌, length, any, contains,
}
use tutor_app_back.Model.Text.{Text, ascii, text_eq}

-- Bytes that must appear at a given offset.
pub record Signature : Type 0 where
  pub offset : ℕ
  pub bytes : List ℕ

-- The bytes from this index on.
abbrev pub skip : ℕ → List ℕ → List ℕ
skip zero xs = xs
skip (suc n) [] = []
skip (suc n) (x ∷ xs) = skip n xs

-- Each byte of the first list is the byte of the second at the same index.
abbrev pub agree : List ℕ → List ℕ → Bool
agree [] xs = true
agree (b ∷ bs) [] = false
agree (b ∷ bs) (x ∷ xs) = x == b && agree bs xs

unfoldable pub matches : List ℕ → Signature → Bool
matches buffer s =
    if ltb (length buffer) (s.offset + length s.bytes)
    then false
    else agree s.bytes (skip s.offset buffer)

abbrev at : ℕ → List ℕ → Signature
at n bytes = record { offset = n; bytes = bytes }

-- The literals of the source.
abbrev pub jpeg : Text
jpeg = ascii "image/jpeg"

abbrev pub png : Text
png = ascii "image/png"

abbrev pub heic : Text
heic = ascii "image/heic"

abbrev pub webp : Text
webp = ascii "image/webp"

abbrev pub pdf : Text
pdf = ascii "application/pdf"

abbrev pub plain : Text
plain = ascii "text/plain"

abbrev pub word : Text
word = ascii "application/msword"

abbrev pub word_document : Text
word_document = ascii "application/vnd.openxmlformats-officedocument.wordprocessingml.document"

abbrev pub spreadsheet : Text
spreadsheet = ascii "application/vnd.openxmlformats-officedocument.spreadsheetml.sheet"

-- `SIGNATURES`, in its order.
abbrev pub signatures : List (Text × List Signature)
signatures =
    (jpeg, at 0 (0xff ∷ 0xd8 ∷ 0xff ∷ []) ∷ [])
    ∷ (png, at 0 (0x89 ∷ 0x50 ∷ 0x4e ∷ 0x47 ∷ 0x0d ∷ 0x0a ∷ 0x1a ∷ 0x0a ∷ []) ∷ [])
    ∷ (
      heic,
      at 4 (ascii "ftypheic")
          ∷ at 4 (ascii "ftypheix")
          ∷ at 4 (ascii "ftyphevc")
          ∷ at 4 (ascii "ftypmif1")
          ∷ at 4 (ascii "ftypmsf1")
          ∷ [],
    )
    ∷ (webp, at 0 (ascii "RIFF") ∷ [])
    ∷ (pdf, at 0 (ascii "%PDF-") ∷ [])
    ∷ (word, at 0 (0xd0 ∷ 0xcf ∷ 0x11 ∷ 0xe0 ∷ 0xa1 ∷ 0xb1 ∷ 0x1a ∷ 0xe1 ∷ []) ∷ [])
    ∷ (word_document, at 0 (ascii "PK") ∷ [])
    ∷ (spreadsheet, at 0 (ascii "PK") ∷ [])
    ∷ []

-- `SIGNATURES[mimeType]`
abbrev pub candidates : Text → List (Text × List Signature) → Option (List Signature)
candidates mime [] = none
candidates mime ((name, ss) ∷ rest) = if text_eq mime name then some ss else candidates mime rest

unfoldable pub bytes_look_like : Text → List ℕ → Bool
unfolding matches
bytes_look_like mime buffer =
    if text_eq mime plain
    then not (contains 0 buffer)
    else (if text_eq mime webp
        then matches buffer (at 0 (ascii "RIFF")) && matches buffer (at 8 (ascii "WEBP"))
        else elim (candidates mime signatures) [ none ↦ false | some ss ↦ any (matches buffer) ss ])
