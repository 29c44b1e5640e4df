-- ===== src/Tests/Bytes.antt =====
-- The storages of the uploaded bytes, evaluated on ids written in unary and the small school.
use tutor_app_back.Storage.RoundTrip.{own_library, upload, OpensOnly, upload-OpensOnly}
use tutor_app_back.Storage.Keys.{key_text, slash, IsWritten}
use tutor_app_back.Storage.{Storage, IsLawful}
use tutor_app_back.Storage.Local.{Disk, put, stays_inside}
use tutor_app_back.Storage.Bucket.{Objects, put_object}
use tutor_app_back.Storage.Kept.{library_upload, store_with}
use tutor_app_back.Files.{
  IncomingFile, finalised, pending_file, assert_acceptable, assert_within_quota,
}
use tutor_app_back.Files.Signatures.{pdf, matches, bytes_look_like}
use tutor_app_back.Storage.Lawful.{local, bucket, local-IsLawful, bucket-IsLawful}
use tutor_app_back.Tests.{teacher, north}
use tutor_app_back.Storage.Local
use tutor_app_back.Storage.Bucket
use tutor_app_back.Prelude.{
  ℕ, zero, suc, ◌≡◌, refl, Bool, true, false, Option, none, some, List, [], ◌∷◌, ◌++◌, arith,
  if◌then◌else◌, contains,
}
use tutor_app_back.Prelude.Int.{pos}
use tutor_app_back.Prelude.Table.{Key}
use tutor_app_back.Model.{tutor_library, key_for, FileRow, Db, ok}
use tutor_app_back.Model.Text.{Text, ascii, starts_with}

abbrev unary : Key → Text
unary zero = []
unary (suc n) = 97 ∷ unary n

unary_plain : (k : Key) → contains slash (unary k) ≡ false
unary_plain zero = refl
unary_plain (suc k) = ground (arith, unary_plain k)

unary_apart : (j k : Key) → unary j ≡ unary k → j ≡ k
unary_apart zero zero h = refl
unary_apart zero (suc k) h = absurd (cc)
unary_apart (suc j) zero h = absurd (cc)
unary_apart (suc j) (suc k) h = ground (arith, unary_apart j k)

unary-IsWritten : IsWritten unary
unary-IsWritten = record { no_slash = unary_plain; apart = unary_apart }

abbrev home : Text
home = ascii "/up"

-- A path that leaves the root by its first part, and any other under the root.
abbrev joined : Text → Text
joined key = if starts_with (ascii "../") key then ascii "/etc" else home ++ slash ∷ key

abbrev write_all : Text → List ℕ → Bool × Option (List ℕ)
write_all path bytes = (true, some bytes)

abbrev empty_disk : Disk
empty_disk path = none

escape_refused : Local.path_for home joined (ascii "../x") ≡ none
unfolding Local.path_for
escape_refused = refl

stays_inside_example :
    (Local.read home joined (put (ascii "/etc") none empty_disk) (ascii "../x")
      ≡ Local.read home joined empty_disk (ascii "../x"))
    × ((Local.save home joined write_all empty_disk (ascii "../x") (7 ∷ [])).1 (ascii "/etc")
        ≡ empty_disk (ascii "/etc"))
    × (Local.remove home joined (λ _. true) empty_disk (ascii "../x") (ascii "/etc")
        ≡ empty_disk (ascii "/etc"))
stays_inside_example =
    stays_inside home joined write_all (λ _. true) empty_disk (ascii "../x") (ascii "/etc") (7 ∷ [])
      none refl refl

abbrev under : Text → Text
under key = home ++ slash ∷ key

local-IsLawful_example : IsLawful (local unary home under write_all (λ _. true))
local-IsLawful_example =
    local-IsLawful unary home under write_all (λ _. true) unary-IsWritten (λ _. refl)
      (λ _ _ _. refl)

abbrev shelf_bucket : Storage
shelf_bucket = bucket unary (λ _. true) (λ _. true)

abbrev empty_bucket : Text → Option (List ℕ)
empty_bucket key = none

abbrev sheet : IncomingFile
sheet = record {
  original_name = ascii "sheet.pdf";
  mime_type = pdf;
  size = 8;
  buffer = ascii "%PDF-1.7";
}

-- The library's first file, in the rows and in the bucket.
abbrev kept_row : FileRow
kept_row = finalised (key_for 1 100) (pos 9) (pending_file tutor_library 1 teacher none none sheet)

abbrev kept_rows : Db
kept_rows = record north { files = (100, kept_row) ∷ []; next_id = 101 }

abbrev kept_objects : Objects
kept_objects = put_object (key_text unary (key_for 1 100)) (some sheet.buffer) empty_bucket

uploaded :
    upload shelf_bucket 100 20 (pos 9) teacher own_library sheet north empty_bucket
    ≡ ((ok kept_row, kept_rows), kept_objects)
unfolding library_upload store_with assert_acceptable bytes_look_like matches assert_within_quota
    Bucket.save
uploaded = refl

upload-OpensOnly_example :
    OpensOnly shelf_bucket teacher sheet north empty_bucket kept_row kept_rows kept_objects
upload-OpensOnly_example =
    upload-OpensOnly shelf_bucket (bucket-IsLawful unary (λ _. true) (λ _. true) unary-IsWritten)
      100 20 (pos 9) teacher sheet north empty_bucket kept_row kept_rows kept_objects own_library tt
      uploaded
