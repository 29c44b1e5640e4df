-- ===== src/Storage/Steps.antt =====
-- The uploads of src/files/files.service.ts with the bytes, step by step, and against the same uploads on the rows alone.
use tutor_app_back.Files.{
  finalised, finalise, pending_file, insert_file, assert_within_quota, upload_to_library,
  assert_acceptable, upload_for_lesson, store_file, upload_for_student, IncomingFile,
}
use tutor_app_back.Storage.{Storage}
use tutor_app_back.Storage.Kept.{
  Kept, and_then, store_with, student_upload, lesson_upload, library_upload, save_bytes,
}
use tutor_app_back.Files.Uploads.{assert_acceptable-state}
use tutor_app_back.Students
use tutor_app_back.Lessons
use tutor_app_back.Prelude.{
  ℕ, ◌+◌, ◌≡◌, refl, sym, ap, ◌∙◌, inl, inr, Bool, true, not, none, some, List, arith,
}
use tutor_app_back.Prelude.Int.{ℤ}
use tutor_app_back.Prelude.Table.{Key, modify, append}
use tutor_app_back.Model.{
  lesson_attachment, student_attachment, tutor_library, User, StorageKey, key_for, FileRow, Db,
  Error, storage_failed, ok, err, Action, ◌>>=◌, ◌>>◌, throw_if, Action-cases, >>=-ok, >>=-err,
}

module _ (S : Storage) {A B : Type 0} (m : Action A) (rest : A → Kept S B) (db : Db)
    (s : S.State) where
  pub and_then-err :
      (e : Error) (d : Db) → m db ≡ (err e, d) → and_then S m rest db s ≡ ((err e, d), s)
  and_then-err e d h = rw (h, h, and_then) refl

  pub and_then-ok : (a : A) (d : Db) → m db ≡ (ok a, d) → and_then S m rest db s ≡ rest a d s
  and_then-ok a d h = rw (h, h, and_then) refl

  -- The rows are those of the same steps on the rows alone.
  pub and_then-rows :
      (k : A → Action B)
      → ((a : A) (d : Db) → m db ≡ (ok a, d) → (rest a d s).0 ≡ k a d)
      → (and_then S m rest db s).0 ≡ (m >>= k) db
  and_then-rows k same = elim (Action-cases m db) [
    | inl (e, d, h) ↦ ap (λ p. p.0) (and_then-err e d h) ∙ sym (>>=-err m k db d h)
    | inr (a, d, h) ↦ ap (λ p. p.0) (and_then-ok a d h) ∙ (same a d h ∙ sym (>>=-ok m k db d h))
  ]

  -- A result comes from a step that returned.
  pub and_then-returned :
      (b : B) (d' : Db) (t : S.State)
      → and_then S m rest db s ≡ ((ok b, d'), t)
      → (a : A) × (d : Db) × (m db ≡ (ok a, d)) × (rest a d s ≡ ((ok b, d'), t))
  and_then-returned b d' t h = elim (Action-cases m db) [
    | inl (e, d, failed) ↦ absurd (cc (h, and_then-err e d failed))
    | inr (a, d, done) ↦ (a, d, done, sym (and_then-ok a d done) ∙ h)
  ]

assert_within_quota-state :
    (max_school_bytes : ℕ) (school : Key) (incoming : ℕ) (db : Db)
    → (assert_within_quota max_school_bytes school incoming db).1 ≡ db
unfolding assert_within_quota
assert_within_quota-state max_school_bytes school incoming db = ground arith

insert_file-returned :
    (row : FileRow) (db : Db) (id : Key) (d : Db)
    → insert_file row db ≡ (ok id, d)
    → (id ≡ db.next_id)
      × (d ≡ record db { files = append db.next_id row db.files; next_id = db.next_id + 1 })
insert_file-returned row db id d h = ground arith

finalise-returned :
    (saved : Bool) (id : Key) (key : StorageKey) (now : ℤ) (row : FileRow) (db : Db)
    (file : FileRow) (d : Db)
    → (throw_if (not saved) storage_failed >> finalise id key now row) db ≡ (ok file, d)
    → (file ≡ finalised key now row)
      × (saved ≡ true)
      × (d ≡ record db { files = modify id (finalised key now) db.files })
finalise-returned saved id key now row db file d h = ground arith

-- The key that a new row gets.
abbrev pub key_of : FileRow → Db → StorageKey
key_of row db = key_for row.school_id db.next_id

module _ (S : Storage) (max_bytes max_school_bytes : ℕ) (now : ℤ) (f : IncomingFile)
    (s : S.State) where
  -- Whether a save of these bytes returns.
  abbrev pub saves : StorageKey → List ℕ → Bool
  saves key bytes = (S.save s key bytes).0

  store_with-rows :
      (row : FileRow) (db : Db)
      → (store_with S max_bytes max_school_bytes now row f db s).0
        ≡ store_file max_bytes max_school_bytes now saves row f db
  unfolding store_with store_file
  store_with-rows row db =
      let last : Key → Action FileRow = λ id.
        throw_if (not (saves (key_for row.school_id id) f.buffer)) storage_failed
        >> finalise id (key_for row.school_id id) now row in
      let later : Action FileRow = insert_file row >>= last in
      let late : Action FileRow =
        assert_within_quota max_school_bytes row.school_id f.size >> later in
      let final : Kept S FileRow = and_then S (insert_file row) (save_bytes S now row f) in
      let next : Kept S FileRow =
        and_then S (assert_within_quota max_school_bytes row.school_id f.size) (λ _. final) in
      and_then-rows S (assert_acceptable max_bytes f) (λ _. next) db s (λ _. late)
        (λ _ d _.
          and_then-rows S (assert_within_quota max_school_bytes row.school_id f.size) (λ _. final) d
            s (λ _. later)
            (λ _ d' _.
              and_then-rows S (insert_file row) (save_bytes S now row f) d' s last (λ _ _ _. refl)))

  -- With the bytes or without, the three uploads do the same to the rows.
  pub uploads-rows :
      (user : User) (student lesson : Key) (db : Db)
      → ((student_upload S max_bytes max_school_bytes now user student f db s).0
          ≡ upload_for_student max_bytes max_school_bytes now saves user student f db)
        × ((lesson_upload S max_bytes max_school_bytes now user lesson f db s).0
            ≡ upload_for_lesson max_bytes max_school_bytes now saves user lesson f db)
        × ((library_upload S max_bytes max_school_bytes now user f db s).0
            ≡ upload_to_library max_bytes max_school_bytes now saves user f db)
  unfolding student_upload lesson_upload library_upload upload_for_student upload_for_lesson
      upload_to_library
  uploads-rows user student lesson db = (
    and_then-rows S (Students.find_one user student)
        (λ r.
          store_with S max_bytes max_school_bytes now
            (pending_file student_attachment r.school_id user (some student) none f) f)
        db s
        (λ r.
          store_file max_bytes max_school_bytes now saves
            (pending_file student_attachment r.school_id user (some student) none f) f)
        (λ r d _.
          store_with-rows (pending_file student_attachment r.school_id user (some student) none f)
            d),
    and_then-rows S (Lessons.find_reachable user lesson)
        (λ r.
          store_with S max_bytes max_school_bytes now
            (pending_file lesson_attachment r.school_id user none (some lesson) f) f)
        db s
        (λ r.
          store_file max_bytes max_school_bytes now saves
            (pending_file lesson_attachment r.school_id user none (some lesson) f) f)
        (λ r d _.
          store_with-rows (pending_file lesson_attachment r.school_id user none (some lesson) f) d),
    store_with-rows (pending_file tutor_library user.school_id user none none f) db,
  )

  -- What an upload that returned has done: the row with its key and its time, and the bytes saved under the key.
  abbrev pub Stored : FileRow → Db → FileRow → Db → S.State → Type 0
  Stored row db file d t =
      (file ≡ finalised (key_of row db) now row)
      × (d ≡ record db {
        files = modify db.next_id (finalised (key_of row db) now) (append db.next_id row db.files);
        next_id = db.next_id + 1;
      })
      × (saves (key_of row db) f.buffer ≡ true)
      × (t ≡ (S.save s (key_of row db) f.buffer).1)

  save_bytes-returned :
      (row : FileRow) (db : Db) (id : Key) (d₀ : Db) (file : FileRow) (d : Db) (t : S.State)
      → insert_file row db ≡ (ok id, d₀)
      → save_bytes S now row f id d₀ s ≡ ((ok file, d), t)
      → Stored row db file d t
  save_bytes-returned row db id d₀ file d t inserted h =
      let (same, wrote) = insert_file-returned row db id d₀ inserted in
      let (kept, saved, final) =
        finalise-returned (S.save s (key_for row.school_id id) f.buffer).0 id
          (key_for row.school_id id) now row d₀ file d (ap (λ p. p.0) h) in
      (
        kept ∙ ap (λ i. finalised (key_for row.school_id i) now row) same,
        final
            ∙ ap
                (λ (e : Db). record e {
                  files = modify id (finalised (key_for row.school_id id) now) e.files;
                })
                wrote
            ∙ ap
                (λ i. record db {
                  files =
                      modify i (finalised (key_for row.school_id i) now)
                        (append db.next_id row db.files);
                  next_id = db.next_id + 1;
                })
                same,
        ap (λ i. (S.save s (key_for row.school_id i) f.buffer).0) (sym same) ∙ saved,
        sym (ap (λ p. p.1) h) ∙ ap (λ i. (S.save s (key_for row.school_id i) f.buffer).1) same,
      )

  pub store_with-returned :
      (row : FileRow) (db : Db) (file : FileRow) (d : Db) (t : S.State)
      → store_with S max_bytes max_school_bytes now row f db s ≡ ((ok file, d), t)
      → Stored row db file d t
  unfolding store_with
  store_with-returned row db file d t h =
      let final : Kept S FileRow = and_then S (insert_file row) (save_bytes S now row f) in
      let next : Kept S FileRow =
        and_then S (assert_within_quota max_school_bytes row.school_id f.size) (λ _. final) in
      let (_, d₁, accepted, h₁) =
        and_then-returned S (assert_acceptable max_bytes f) (λ _. next) db s file d t h in
      let (_, d₂, within, h₂) =
        and_then-returned S (assert_within_quota max_school_bytes row.school_id f.size) (λ _. final)
          d₁ s file d t h₁ in
      let (id, d₃, inserted, h₃) =
        and_then-returned S (insert_file row) (save_bytes S now row f) d₂ s file d t h₂ in
      let here : d₁ ≡ db = sym (ap (λ p. p.1) accepted) ∙ assert_acceptable-state max_bytes f db in
      let here' : d₂ ≡ d₁ =
        sym (ap (λ p. p.1) within)
        ∙ assert_within_quota-state max_school_bytes row.school_id f.size d₁ in
      save_bytes-returned row db id d₃ file d t
        (ap (insert_file row) (sym here ∙ sym here') ∙ inserted) h₃
