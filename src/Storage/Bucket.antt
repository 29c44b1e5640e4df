-- ===== src/Storage/Bucket.antt =====
-- src/files/s3-storage.service.ts: files as the objects of a bucket, which the service keeps under their keys. Whether a put
-- and a deletion return are parameters.
use tutor_app_back.Prelude.{ℕ, Bool, true, false, Option, none, some, List, if◌then◌else◌}
use tutor_app_back.Model.Text.{Text, text_eq}

abbrev pub Objects : Type 0
Objects = Text → Option (List ℕ)

abbrev pub put_object : Text → Option (List ℕ) → Objects → Objects
put_object key body objects q = if text_eq q key then body else objects q

-- A put that throws stores nothing.
unfoldable pub save : (Text → Bool) → Objects → Text → List ℕ → Bool × Objects
save puts objects key contents =
    if puts key then (true, put_object key (some contents) objects) else (false, objects)

-- It throws where there is no object.
unfoldable pub read : Objects → Text → Option (List ℕ)
read objects key = objects key

unfoldable pub remove : (Text → Bool) → Objects → Text → Objects
remove deletes objects key = if deletes key then put_object key none objects else objects
