-- ===== src/Storage.antt =====
-- src/files/storage.service.ts: where the bytes live, as the operations that the file service calls and what it
-- relies on. A save also says whether it returned; a read that throws is nothing.
pub mod Keys
pub mod Local
pub mod Bucket
pub mod Lawful
pub mod Kept
pub mod Steps
pub mod RoundTrip
use tutor_app_back.Files.{storage_key_eq}
use tutor_app_back.Prelude.{ℕ, ◌≡◌, Bool, true, false, Option, some, List}
use tutor_app_back.Model.{StorageKey}

pub record Storage : Type 1 where
  pub State : Type 0
  pub save : State → StorageKey → List ℕ → Bool × State
  pub read : State → StorageKey → Option (List ℕ)
  pub remove : State → StorageKey → State

-- A save that returns leaves the bytes under its key. No save and no removal touches another key. A removal may
-- leave the bytes where they were, and a save that throws a part of them.
pub record IsLawful (S : Storage) : Type 0 where
  pub read-save :
      (s : S.State) (key : StorageKey) (bytes : List ℕ)
      → (S.save s key bytes).0 ≡ true
      → S.read (S.save s key bytes).1 key ≡ some bytes
  pub read_other-save :
      (s : S.State) (key other_key : StorageKey) (bytes : List ℕ)
      → storage_key_eq other_key key ≡ false
      → S.read (S.save s key bytes).1 other_key ≡ S.read s other_key
  pub read_other-remove :
      (s : S.State) (key other_key : StorageKey)
      → storage_key_eq other_key key ≡ false
      → S.read (S.remove s key) other_key ≡ S.read s other_key
