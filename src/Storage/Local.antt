-- ===== src/Storage/Local.antt =====
-- src/files/local-storage.service.ts: files on a disk, which is what each path holds. The absolute path that Node's
-- `resolve(join(root, key))` gives, what `writeFile` leaves at a path, and whether `unlink` returns are parameters.
use tutor_app_back.Storage.Keys.{slash}
use tutor_app_back.Prelude.{
  ℕ, ◌≡◌, refl, ◌∙◌, ◌⊎◌, inl, inr, Bool, true, false, not, ◌&&◌, Option, none, some, List, [], ◌∷◌,
  ◌++◌, arith, if◌then◌else◌, Bool-cases, Option-cases,
}
use tutor_app_back.Model.Text.{Text, text_eq, text_eq_sound, text_eq-sym, starts_with}

abbrev pub Disk : Type 0
Disk = Text → Option (List ℕ)

abbrev pub put : Text → Option (List ℕ) → Disk → Disk
put path held disk q = if text_eq q path then held else disk q

module _ (root : Text) (resolve : Text → Text) where
  -- Nothing where it throws. The separator of a path is the slash.
  unfoldable pub path_for : Text → Option Text
  path_for key =
      let path : Text = resolve key in
      if not (text_eq path root) && not (starts_with (root ++ slash ∷ []) path)
      then none
      else some path

  path_for-inside :
      (key path : Text)
      → path_for key ≡ some path
      → (text_eq path root ≡ true) ⊎ (starts_with (root ++ slash ∷ []) path ≡ true)
  unfolding path_for
  path_for-inside key path h = ground arith

  outside-apart :
      (q path : Text)
      → text_eq q root ≡ false
      → starts_with (root ++ slash ∷ []) q ≡ false
      → (text_eq path root ≡ true) ⊎ (starts_with (root ++ slash ∷ []) path ≡ true)
      → text_eq q path ≡ false
  outside-apart q path other_path outside inside = elim (Bool-cases (text_eq q path)) [
    | inr apart ↦ apart
    | inl same ↦ let e = text_eq_sound q path same in absurd (ground (arith, e))
  ]

  unfoldable pub read : Disk → Text → Option (List ℕ)
  unfolding path_for
  read disk key = elim (path_for key) [ none ↦ none | some path ↦ disk path ]

  module _ (write_file : Text → List ℕ → Bool × Option (List ℕ)) where
    unfoldable pub save : Disk → Text → List ℕ → Bool × Disk
    unfolding path_for
    save disk key contents = elim (path_for key) [
      | none ↦ (false, disk)
      | some path ↦ ((write_file path contents).0, put path (write_file path contents).1 disk)
    ]

  module _ (unlinks : Text → Bool) where
    unfoldable pub remove : Disk → Text → Disk
    unfolding path_for
    remove disk key = elim (path_for key) [
      | none ↦ disk
      | some path ↦ if unlinks path then put path none disk else disk
    ]

  -- No key reaches past the root: a read of any key sees nothing of it, and a save and a removal under any key leave
  -- it as it was.
  pub stays_inside :
      (write_file : Text → List ℕ → Bool × Option (List ℕ)) (unlinks : Text → Bool) (disk : Disk)
      (key q : Text) (contents : List ℕ) (held : Option (List ℕ))
      → text_eq q root ≡ false
      → starts_with (root ++ slash ∷ []) q ≡ false
      → (read (put q held disk) key ≡ read disk key)
        × ((save write_file disk key contents).1 q ≡ disk q)
        × (remove unlinks disk key q ≡ disk q)
  unfolding save remove read
  stays_inside write_file unlinks disk key q contents held other_path outside =
      elim (Option-cases (path_for key)) [
        | inl refused ↦
            rw (refused, read) (rw (refused, save) (rw (refused, remove) (refl, refl, refl)))
        | inr (path, found) ↦
            let apart : text_eq q path ≡ false =
              outside-apart q path other_path outside (path_for-inside key path found) in
            let apart' : text_eq path q ≡ false = text_eq-sym path q ∙ apart in
            ground (arith, found, apart, apart')
      ]

module _ (root : Text) (resolve : Text → Text) (key path : Text)
    (here : path_for root resolve key ≡ some path) (disk : Disk) where
  pub read-path_for : read root resolve disk key ≡ disk path
  unfolding read
  read-path_for = rw (here, read) refl

  pub save-path_for :
      (write_file : Text → List ℕ → Bool × Option (List ℕ)) (contents : List ℕ)
      → save root resolve write_file disk key contents
        ≡ ((write_file path contents).0, put path (write_file path contents).1 disk)
  unfolding save
  save-path_for write_file contents = rw (here, save) refl

  pub remove-path_for :
      (unlinks : Text → Bool)
      → remove root resolve unlinks disk key ≡ (if unlinks path then put path none disk else disk)
  unfolding remove
  remove-path_for unlinks = rw (here, remove) refl
