-- ===== src/Storage/Lawful.antt =====
-- The two storages of src/files as what src/files/files.service.ts relies on.
use tutor_app_back.Storage.{Storage, IsLawful}
use tutor_app_back.Storage.Keys.{slash, key_text, IsWritten, key_text-eq}
use tutor_app_back.Storage.Local.{read-path_for, save-path_for, remove-path_for, Disk, put}
use tutor_app_back.Storage.Bucket.{Objects}
use tutor_app_back.Files.{storage_key_eq}
use tutor_app_back.Storage.Local
use tutor_app_back.Storage.Bucket
use tutor_app_back.Prelude.{
  ℕ, ◌≡◌, refl, sym, ap, ◌∙◌, Bool, true, Option, some, List, [], ◌∷◌, ◌++◌, arith,
}
use tutor_app_back.Prelude.Table.{Key}
use tutor_app_back.Model.{StorageKey}
use tutor_app_back.Model.Text.{Text, text_eq, text_eq_refl, starts_with}

starts_with-append : (p s : Text) → starts_with (p ++ slash ∷ []) (p ++ slash ∷ s) ≡ true
starts_with-append [] s = refl
starts_with-append (c ∷ p) s = ground (arith, starts_with-append p s)

text_eq-append : (p a b : Text) → text_eq (p ++ slash ∷ a) (p ++ slash ∷ b) ≡ text_eq a b
text_eq-append [] a b = refl
text_eq-append (c ∷ p) a b = ground (arith, text_eq-append p a b)

module _ (print : Key → Text) (root : Text) (resolve : Text → Text)
    (write_file : Text → List ℕ → Bool × Option (List ℕ)) (unlinks : Text → Bool) where
  abbrev pub local : Storage
  local = record {
    State = Disk;
    save = λ disk key. Local.save root resolve write_file disk (key_text print key);
    read = λ disk key. Local.read root resolve disk (key_text print key);
    remove = λ disk key. Local.remove root resolve unlinks disk (key_text print key);
  }

  module _ (written : IsWritten print)
      (joins : (key : StorageKey)
        → resolve (key_text print key) ≡ root ++ slash ∷ key_text print key)
      (writes : (path : Text) (bytes : List ℕ)
        → (write_file path bytes).0 ≡ true
        → (write_file path bytes).1 ≡ some bytes) where
    abbrev path_of : StorageKey → Text
    path_of key = root ++ slash ∷ key_text print key

    path_for-inside :
        (key : StorageKey)
        → Local.path_for root resolve (key_text print key)
          ≡ some (root ++ slash ∷ key_text print key)
    unfolding Local.path_for
    path_for-inside key = ground (arith, joins key, starts_with-append root (key_text print key))

    same_path :
        (j k : StorageKey)
        → text_eq (root ++ slash ∷ key_text print j) (root ++ slash ∷ key_text print k)
          ≡ storage_key_eq j k
    same_path j k =
        text_eq-append root (key_text print j) (key_text print k) ∙ key_text-eq print written j k

    -- The disk keeps what a storage promises, when ids are written apart and without a slash, `resolve` joins such a key to the
    -- root, and `writeFile` leaves the bytes where it returns.
    pub local-IsLawful : IsLawful local
    local-IsLawful = record {
      read-save = λ disk key bytes done.
          let at = path_of key in
          let saved =
            save-path_for root resolve (key_text print key) at (path_for-inside key) disk write_file
              bytes in
          let here = read-path_for root resolve (key_text print key) at (path_for-inside key) in
          let wrote : (write_file at bytes).0 ≡ true = sym (ap (λ p. p.0) saved) ∙ done in
          rw saved (here _ ∙ ground (arith, text_eq_refl at, writes at bytes wrote));
      read_other-save = λ disk key other_key bytes apart.
          let saved =
            save-path_for root resolve (key_text print key) (path_of key) (path_for-inside key) disk
              write_file bytes in
          let there =
            read-path_for root resolve (key_text print other_key) (path_of other_key)
              (path_for-inside other_key) in
          rw saved (there _ ∙ ground (arith, same_path other_key key, apart) ∙ sym (there disk));
      read_other-remove = λ disk key other_key apart.
          let removed =
            remove-path_for root resolve (key_text print key) (path_of key) (path_for-inside key)
              disk unlinks in
          let there =
            read-path_for root resolve (key_text print other_key) (path_of other_key)
              (path_for-inside other_key) in
          rw removed (there _ ∙ ground (arith, same_path other_key key, apart) ∙ sym (there disk));
    }

module _ (print : Key → Text) (puts deletes : Text → Bool) where
  abbrev pub bucket : Storage
  bucket = record {
    State = Objects;
    save = λ objects key. Bucket.save puts objects (key_text print key);
    read = λ objects key. Bucket.read objects (key_text print key);
    remove = λ objects key. Bucket.remove deletes objects (key_text print key);
  }

  -- The bucket keeps what a storage promises, when ids are written apart and without a slash.
  pub bucket-IsLawful : IsWritten print → IsLawful bucket
  unfolding Bucket.save Bucket.read Bucket.remove
  bucket-IsLawful written = record {
    read-save = λ objects key bytes done. ground (arith, done, text_eq_refl (key_text print key));
    read_other-save = λ objects key other_key bytes apart.
        ground (arith, key_text-eq print written other_key key, apart);
    read_other-remove = λ objects key other_key apart.
        ground (arith, key_text-eq print written other_key key, apart);
  }
