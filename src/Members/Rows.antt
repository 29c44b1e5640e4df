-- ===== src/Members/Rows.antt =====
-- Rows that never share a text, and rows that belong to a stored school.

use tutor_app_back.Prelude.{
  ℕ, ◌+◌, ◌≤◌, ◌≡◌, refl, inl, inr, Bool, true, false, ◌||◌, some, [], ◌∷◌, arith, ◌==◌, Bool-cases,
  is_some,
}
use tutor_app_back.Prelude.Table.{
  Key, Table, lookup, modify, erase, append, lookup-append, KeysBelow, lookup_fresh, find_first,
}
use tutor_app_back.Model.{SchoolRow}
use tutor_app_back.Model.Text.{Text, text_eq}

pub text_eq_comm : (a b : Text) → text_eq a b ≡ text_eq b a
text_eq_comm [] [] = refl
text_eq_comm [] (d ∷ b) = refl
text_eq_comm (c ∷ a) [] = refl
text_eq_comm (c ∷ a) (d ∷ b) = ground (arith, text_eq_comm a b)

pub KeysBelow-mono : {V : Type 0} (m n : ℕ) (t : Table V) → m ≤ n → KeysBelow m t → KeysBelow n t
KeysBelow-mono m n [] le below = tt
KeysBelow-mono m n ((j, v) ∷ t) le below =
    (omega (arith, le, below.0), KeysBelow-mono m n t le below.1)

pub append-KeysBelow :
    {V : Type 0} (n : ℕ) (v : V) (t : Table V) → KeysBelow n t → KeysBelow (n + 1) (append n v t)
append-KeysBelow n v [] below = (omega arith, tt)
append-KeysBelow n v ((j, w) ∷ t) below = (omega (arith, below.0), append-KeysBelow n v t below.1)

pub modify-KeysBelow :
    {V : Type 0} (n k : ℕ) (f : V → V) (t : Table V) → KeysBelow n t → KeysBelow n (modify k f t)
modify-KeysBelow n k f [] below = tt
modify-KeysBelow n k f ((j, w) ∷ t) below = ground (arith, below, modify-KeysBelow n k f t)

-- A text of each row: the address of a user, the address of a school.
module _ {V : Type 0} (text : V → Text) where
  abbrev pub used : Text → Table V → Bool
  used x t = is_some (find_first (λ _ (v : V). text_eq (text v) x) t)

  -- No two rows have the text in common.
  abbrev pub IsDistinct : Table V → Type 0
  IsDistinct [] = Unit
  IsDistinct ((k, v) ∷ t) = (used (text v) t ≡ false) × IsDistinct t

  used-append :
      (x : Text) (k : Key) (v : V) (t : Table V)
      → used x (append k v t) ≡ (used x t || text_eq (text v) x)
  used-append x k v [] = ground arith
  used-append x k v ((j, w) ∷ t) = ground (arith, used-append x k v t)

  pub append-IsDistinct :
      (k : Key) (v : V) (t : Table V)
      → used (text v) t ≡ false
      → IsDistinct t
      → IsDistinct (append k v t)
  append-IsDistinct k v [] fresh distinct = (refl, tt)
  append-IsDistinct k v ((j, w) ∷ t) fresh distinct =
      elim (Bool-cases (text_eq (text w) (text v))) [
        | inl same ↦ absurd (ground (arith, fresh, same))
        | inr apart ↦ (
          ground (
            arith,
            used-append (text w) k v t,
            distinct.0,
            text_eq_comm (text v) (text w),
            apart,
          ),
          append-IsDistinct k v t (ground (arith, fresh, apart)) distinct.1,
        )
      ]

  used-modify :
      (x : Text) (k : Key) (f : V → V) (t : Table V)
      → ((v : V) → text (f v) ≡ text v)
      → used x (modify k f t) ≡ used x t
  used-modify x k f [] same = refl
  used-modify x k f ((j, w) ∷ t) same = ground (arith, same w, used-modify x k f t same)

  pub modify-IsDistinct :
      (k : Key) (f : V → V) (t : Table V)
      → ((v : V) → text (f v) ≡ text v)
      → IsDistinct t
      → IsDistinct (modify k f t)
  modify-IsDistinct k f [] same distinct = tt
  modify-IsDistinct k f ((j, w) ∷ t) same distinct = elim (Bool-cases (k == j)) [
    | inl here ↦ ground (arith, here, same w, distinct)
    | inr further ↦
        ground
          (arith, further, distinct, used-modify (text w) k f t same, modify-IsDistinct k f t same)
  ]

-- The school of each row is among the stored ones.
module _ {V : Type 0} (school : V → Key) where
  abbrev pub Belong : Table SchoolRow → Table V → Type 0
  Belong s [] = Unit
  Belong s ((k, v) ∷ t) = (is_some (lookup (school v) s) ≡ true) × Belong s t

  pub append-Belong :
      (s : Table SchoolRow) (k : Key) (v : V) (t : Table V)
      → is_some (lookup (school v) s) ≡ true
      → Belong s t
      → Belong s (append k v t)
  append-Belong s k v [] there all_there = (there, tt)
  append-Belong s k v ((j, w) ∷ t) there all_there =
      (all_there.0, append-Belong s k v t there all_there.1)

  pub modify-Belong :
      (s : Table SchoolRow) (k : Key) (f : V → V) (t : Table V)
      → ((v : V) → school (f v) ≡ school v)
      → Belong s t
      → Belong s (modify k f t)
  modify-Belong s k f [] same all_there = tt
  modify-Belong s k f ((j, w) ∷ t) same all_there = elim (Bool-cases (k == j)) [
    | inl here ↦ ground (arith, here, same w, all_there)
    | inr further ↦ ground (arith, further, all_there, modify-Belong s k f t same)
  ]

  pub erase-Belong :
      (s : Table SchoolRow) (k : Key) (t : Table V) → Belong s t → Belong s (erase k t)
  erase-Belong s k [] all_there = tt
  erase-Belong s k ((j, w) ∷ t) all_there = elim (Bool-cases (k == j)) [
    | inl here ↦ ground (arith, here, all_there)
    | inr further ↦ ground (arith, further, all_there, erase-Belong s k t)
  ]

  pub found-Belong :
      (s : Table SchoolRow) (p : Key → V → Bool) (k : Key) (v : V) (t : Table V)
      → Belong s t
      → find_first p t ≡ some (k, v)
      → is_some (lookup (school v) s) ≡ true
  found-Belong s p k v [] all_there h = absurd (cc)
  found-Belong s p k v ((j, w) ∷ t) all_there h = elim (Bool-cases (p j w)) [
    | inl here ↦ ground (arith, h, here, all_there)
    | inr further ↦ ground (arith, h, further, all_there, found-Belong s p k v t)
  ]

  pub stored-Belong :
      (s : Table SchoolRow) (k : Key) (v : V) (t : Table V)
      → Belong s t
      → lookup k t ≡ some v
      → is_some (lookup (school v) s) ≡ true
  stored-Belong s k v [] all_there h = absurd (cc)
  stored-Belong s k v ((j, w) ∷ t) all_there h = ground (arith, h, all_there, stored-Belong s k v t)

  -- More schools are no harm.
  pub Belong-mono :
      (s s' : Table SchoolRow) (t : Table V)
      → ((k : Key) → is_some (lookup k s) ≡ true → is_some (lookup k s') ≡ true)
      → Belong s t
      → Belong s' t
  Belong-mono s s' [] more all_there = tt
  Belong-mono s s' ((j, w) ∷ t) more all_there =
      (more (school w) all_there.0, Belong-mono s s' t more all_there.1)

pub append_keeps :
    {V : Type 0} (n : Key) (v : V) (t : Table V) (k : Key)
    → KeysBelow n t
    → is_some (lookup k t) ≡ true
    → is_some (lookup k (append n v t)) ≡ true
append_keeps n v t k below there =
    ground (arith, there, lookup-append k n v t (lookup_fresh n t below))

pub modify_keeps :
    {V : Type 0} (j k : Key) (f : V → V) (t : Table V)
    → is_some (lookup k t) ≡ true
    → is_some (lookup k (modify j f t)) ≡ true
modify_keeps j k f [] there = there
modify_keeps j k f ((i, w) ∷ t) there = ground (arith, there, modify_keeps j k f t)
