-- ===== src/Storage/Keys.antt =====
-- `keyFor` of src/files/storage.service.ts as a text, and the objects of a store under such texts. How an id is
-- written is a parameter.
use tutor_app_back.Files.{storage_key_eq}
use tutor_app_back.Prelude.{
  ℕ, ◌≡◌, refl, sym, ap, ◌∙◌, inl, inr, true, false, [], ◌∷◌, ◌++◌, arith, ◌==◌, if◌then◌else◌,
  Bool-cases, contains,
}
use tutor_app_back.Prelude.Table.{Key}
use tutor_app_back.Model.{StorageKey, pending, key_for}
use tutor_app_back.Model.Text.{Text, ascii, text_eq, text_eq_refl, text_eq_sound, text_eq-sym}

abbrev pub slash : ℕ
slash = 47

-- `${schoolId}/${fileId}`, and the placeholder of an upload that is not finished.
abbrev pub key_text : (Key → Text) → StorageKey → Text
key_text print pending = ascii "pending"
key_text print (key_for school file) = print school ++ slash ∷ print file

-- Ids have no slash, and two ids are not written alike.
pub record IsWritten (print : Key → Text) : Type 0 where
  pub no_slash : (k : Key) → contains slash (print k) ≡ false
  pub apart : (j k : Key) → print j ≡ print k → j ≡ k

-- The two parts around the first slash.
abbrev pub cut : Text → Text × Text
cut [] = ([], [])
cut (c ∷ s) = if c == slash then ([], s) else (c ∷ (cut s).0, (cut s).1)

cut-append : (a b : Text) → contains slash a ≡ false → cut (a ++ slash ∷ b) ≡ (a, b)
cut-append [] b h = refl
cut-append (c ∷ a) b h = ground (arith, h, cut-append a b)

contains-append : (a b : Text) → contains slash (a ++ slash ∷ b) ≡ true
contains-append [] b = refl
contains-append (c ∷ a) b = ground (arith, contains-append a b)

storage_key_eq_refl : (key : StorageKey) → storage_key_eq key key ≡ true
storage_key_eq_refl pending = refl
storage_key_eq_refl (key_for a b) = ground arith

module _ (print : Key → Text) (written : IsWritten print) where
  key_text-distinct :
      (a b : Key) (k : Text)
      → contains slash k ≡ false
      → text_eq k (key_text print (key_for a b)) ≡ false
  key_text-distinct a b k plain = elim (Bool-cases (text_eq k (key_text print (key_for a b)))) [
    | inr apart ↦ apart
    | inl same ↦
        let e = text_eq_sound k (key_text print (key_for a b)) same in
        let has = contains-append (print a) (print b) in absurd (cc)
  ]

  -- Two keys have one text only when they are the same.
  pub key_text-eq :
      (j k : StorageKey) → text_eq (key_text print j) (key_text print k) ≡ storage_key_eq j k
  key_text-eq pending pending = refl
  key_text-eq pending (key_for c d) = key_text-distinct c d (ascii "pending") refl
  key_text-eq (key_for a b) pending =
      text_eq-sym (key_text print (key_for a b)) (ascii "pending")
      ∙ key_text-distinct a b (ascii "pending") refl
  key_text-eq (key_for a b) (key_for c d) =
      elim (Bool-cases (text_eq (key_text print (key_for a b)) (key_text print (key_for c d)))) [
        | inl same ↦
            let e =
              text_eq_sound (key_text print (key_for a b)) (key_text print (key_for c d)) same in
            let one = cut-append (print a) (print b) (written.no_slash a) in
            let two = cut-append (print c) (print d) (written.no_slash c) in
            let both = sym one ∙ ap cut e ∙ two in
            let first = written.apart a c (ap (λ p. p.0) both) in
            let second = written.apart b d (ap (λ p. p.1) both) in
            ground (arith, same, first, second)
        | inr apart ↦ elim (Bool-cases (storage_key_eq (key_for a b) (key_for c d))) [
          | inr differ ↦ apart ∙ sym differ
          | inl same ↦
              let first : a ≡ c = ground (arith, same) in
              let second : b ≡ d = ground (arith, same) in
              let again = text_eq_refl (key_text print (key_for a b)) in absurd (cc)
        ]
      ]
