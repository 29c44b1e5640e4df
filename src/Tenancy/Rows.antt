-- ===== src/Tenancy/Rows.antt =====
-- References between tables of rows that belong to schools.
use tutor_app_back.Prelude.{
  ◌≡◌, refl, ◌≢◌, inl, inr, Bool, true, false, ◌&&◌, Option, none, some, [], ◌∷◌, arith, ◌==◌,
  Bool-cases, Option-cases,
}
use tutor_app_back.Prelude.Table.{
  Key, Table, lookup, modify, erase, append, lookup-erase_ne, lookup-append, find_many,
}
use tutor_app_back.Model.{is_key}

module _ {V : Type 0} (school : V → Key) where
  -- The school of the row under a key.
  abbrev pub school_of : Table V → Key → Option Key
  school_of t k = elim (lookup k t) [ none ↦ none | some v ↦ some (school v) ]

  pub school_of-modify :
      (x k : Key) (f : V → V) (t : Table V)
      → ((v : V) → school (f v) ≡ school v)
      → school_of (modify k f t) x ≡ school_of t x
  school_of-modify x k f [] same = refl
  school_of-modify x k f ((j, v) ∷ t) same = ground (arith, same v, school_of-modify x k f t same)

  pub school_of-append :
      (x y k : Key) (v : V) (t : Table V)
      → lookup k t ≡ none
      → school_of t x ≡ some y
      → school_of (append k v t) x ≡ some y
  school_of-append x y k v t fresh h = ground (arith, lookup-append x k v t fresh, fresh, h)

  pub school_of-erase : (x k : Key) (t : Table V) → x ≢ k → school_of (erase k t) x ≡ school_of t x
  school_of-erase x k t apart = ground (arith, lookup-erase_ne x k t apart)

-- An optional reference leads to a row of this school.
abbrev pub in_school : (Key → Option Key) → Key → Option Key → Bool
in_school rows school none = true
in_school rows school (some x) = elim (rows x) [ none ↦ false | some y ↦ y == school ]

-- Two schools of which a row of both tells the same.
abbrev pub same_school : Option Key → Option Key → Bool
same_school (some x) (some y) = x == y
same_school _ _ = false

-- What one assignment of schools says, the other says too.
abbrev pub Extends : (Key → Option Key) → (Key → Option Key) → Type 0
Extends rows more = (x y : Key) → rows x ≡ some y → more x ≡ some y

pub in_school-Extends :
    (rows more : Key → Option Key) (school : Key) (ref : Option Key)
    → Extends rows more
    → in_school rows school ref ≡ true
    → in_school more school ref ≡ true
in_school-Extends rows more school none ext h = refl
in_school-Extends rows more school (some x) ext h = elim (Option-cases (rows x)) [
  | inl missing ↦ absurd (ground (arith, h, missing))
  | inr (y, found) ↦ ground (arith, h, found, ext x y found)
]

pub same_school-Extends :
    (rows more rows' more' : Key → Option Key) (x y : Key)
    → Extends rows more
    → Extends rows' more'
    → same_school (rows x) (rows' y) ≡ true
    → same_school (more x) (more' y) ≡ true
same_school-Extends rows more rows' more' x y ext ext' h = elim (Option-cases (rows x)) [
  | inl missing ↦ absurd (ground (arith, h, missing))
  | inr (a, found) ↦ elim (Option-cases (rows' y)) [
    | inl missing ↦ absurd (ground (arith, h, found, missing))
    | inr (b, found') ↦ ground (arith, h, found, found', ext x a found, ext' y b found')
  ]
]

-- Every row passes a test.
module _ {V : Type 0} (p : V → Bool) where
  abbrev pub all_rows : Table V → Bool
  all_rows [] = true
  all_rows ((k, v) ∷ t) = p v && all_rows t

  pub all_rows-lookup :
      (k : Key) (v : V) (t : Table V) → all_rows t ≡ true → lookup k t ≡ some v → p v ≡ true
  all_rows-lookup k v [] h found = absurd (cc)
  all_rows-lookup k v ((j, w) ∷ t) h found = ground (arith, h, found, all_rows-lookup k v t)

  pub all_rows-append :
      (k : Key) (v : V) (t : Table V)
      → all_rows t ≡ true
      → p v ≡ true
      → all_rows (append k v t) ≡ true
  all_rows-append k v [] h new = ground arith
  all_rows-append k v ((j, w) ∷ t) h new = ground (arith, h, all_rows-append k v t, new)

  -- A change to one row, which passes after it.
  pub all_rows-modify :
      (k : Key) (f : V → V) (t : Table V)
      → all_rows t ≡ true
      → ((v : V) → lookup k t ≡ some v → p v ≡ true → p (f v) ≡ true)
      → all_rows (modify k f t) ≡ true
  all_rows-modify k f [] h kept = refl
  all_rows-modify k f ((j, w) ∷ t) h kept = elim (Bool-cases (k == j)) [
    | inl here ↦ ground (arith, h, here, kept w)
    | inr there ↦ ground (
      arith,
      h,
      there,
      all_rows-modify k f t (ground (arith, h)) (λ v found. kept v (ground (arith, there, found))),
    )
  ]

  pub all_rows-erase : (k : Key) (t : Table V) → all_rows t ≡ true → all_rows (erase k t) ≡ true
  all_rows-erase k [] h = refl
  all_rows-erase k ((j, w) ∷ t) h = ground (arith, h, all_rows-erase k t)

module _ {V : Type 0} (p q : V → Bool) where
  pub all_rows_mono :
      (t : Table V)
      → ((v : V) → p v ≡ true → q v ≡ true)
      → all_rows p t ≡ true
      → all_rows q t ≡ true
  all_rows_mono [] imp h = refl
  all_rows_mono ((j, w) ∷ t) imp h = ground (arith, h, imp w, all_rows_mono t imp)

  -- The rows that stay pass a test that only they need to pass.
  pub all_rows-find_many :
      (keep : V → Bool) (t : Table V)
      → ((v : V) → p v ≡ true → keep v ≡ true → q v ≡ true)
      → all_rows p t ≡ true
      → all_rows q (find_many keep t) ≡ true
  all_rows-find_many keep [] imp h = refl
  all_rows-find_many keep ((j, w) ∷ t) imp h = elim (Bool-cases (keep w)) [
    | inl kept ↦ ground (arith, h, kept, imp w, all_rows-find_many keep t imp)
    | inr out ↦ ground (arith, h, out, all_rows-find_many keep t imp)
  ]

-- A reference to another row outlives the row that goes.
pub in_school-erase :
    {W : Type 0} (owner : W → Key) (k : Key) (t : Table W) (school : Key) (ref : Option Key)
    → is_key k ref ≡ false
    → in_school (school_of owner t) school ref ≡ true
    → in_school (school_of owner (erase k t)) school ref ≡ true
in_school-erase owner k t school none other_row h = refl
in_school-erase owner k t school (some x) other_row h =
    ground (arith, h, lookup-erase_ne x k t (ground (arith, other_row)))
