-- ===== src/Prelude/Table.antt =====
-- A database table: rows under their keys, in order of insertion. Keys are compared and never read,
-- so they are numbers.
use Prim.Native.Nat.{ℕ, suc, ◌<◌}
use mathlib.Core.Bool.{Bool, true, false}
use mathlib.Core.Path.{◌≡◌, refl}
use mathlib.Core.Logic.{◌≢◌, ◌↔◌}
use mathlib.Core.Option
use mathlib.Core.Option.{Option, none, some}
use mathlib.Core.List.{List, [], ◌∷◌, ◌++◌}
use native.Mathlib.Omega.{arith}
use tutor_app_back.Prelude.Tests.{if◌then◌else◌, ◌==◌, is_some}
use tutor_app_back.Prelude.{inl, inr, not, ◌&&◌, Bool-cases}

abbrev pub Key : Type 0
Key = ℕ

abbrev pub Table {ℓ} : Type ℓ → Type ℓ
Table V = List (Key × V)

module _ {ℓ} {V : Type ℓ} where
  -- `findUnique` by primary key
  abbrev pub lookup : Key → Table V → Option V
  lookup k [] = none
  lookup k ((j, v) ∷ t) = if k == j then some v else lookup k t

  -- `update` of the row with this key, nothing where there is none
  abbrev pub modify : Key → (V → V) → Table V → Table V
  modify k f [] = []
  modify k f ((j, v) ∷ t) = if k == j then (j, f v) ∷ t else (j, v) ∷ modify k f t

  -- `delete` of the row with this key
  abbrev pub erase : Key → Table V → Table V
  erase k [] = []
  erase k ((j, v) ∷ t) = if k == j then t else (j, v) ∷ erase k t

  -- `create`
  abbrev pub append : Key → V → Table V → Table V
  append k v t = t ++ (k, v) ∷ []

  pub lookup-modify :
      (j k : Key) (f : V → V) (t : Table V)
      → lookup j (modify k f t) ≡ (if k == j then Option.map f (lookup j t) else lookup j t)
  lookup-modify j k f [] = ground arith
  lookup-modify j k f ((i, v) ∷ t) = ground (arith, lookup-modify j k f t)

  pub lookup-erase_ne : (j k : Key) (t : Table V) → j ≢ k → lookup j (erase k t) ≡ lookup j t
  lookup-erase_ne j k [] h = refl
  lookup-erase_ne j k ((i, v) ∷ t) h = ground (arith, lookup-erase_ne j k t h)

  pub lookup-append :
      (j k : Key) (v : V) (t : Table V)
      → lookup k t ≡ none
      → lookup j (append k v t) ≡ (if k == j then some v else lookup j t)
  lookup-append j k v [] h = ground arith
  lookup-append j k v ((i, w) ∷ t) h = ground (arith, lookup-append j k v t)

  -- Every key of the table is below the bound.
  abbrev pub KeysBelow : ℕ → Table V → Type 0
  KeysBelow n [] = Unit
  KeysBelow n ((j, v) ∷ t) = (j < n) × KeysBelow n t

  pub lookup_fresh : (n : ℕ) (t : Table V) → KeysBelow n t → lookup n t ≡ none
  lookup_fresh n [] h = refl
  lookup_fresh n ((j, v) ∷ t) h = ground (arith, lookup_fresh n t h.1)

  -- `findFirst`
  abbrev pub find_first : (Key → V → Bool) → Table V → Option (Key × V)
  find_first p [] = none
  find_first p ((j, v) ∷ t) = if p j v then some (j, v) else find_first p t

  -- `findMany`
  abbrev pub find_many : (V → Bool) → Table V → Table V
  find_many p [] = []
  find_many p ((j, v) ∷ t) = if p v then (j, v) ∷ find_many p t else find_many p t

  -- `count`
  abbrev pub count : (V → Bool) → Table V → ℕ
  count p [] = 0
  count p ((j, v) ∷ t) = if p v then suc (count p t) else count p t

  -- `rows.map((row) => row.id)`
  abbrev pub keys : Table V → List Key
  keys [] = []
  keys ((j, v) ∷ t) = j ∷ keys t

  -- No key is listed twice.
  abbrev pub IsKeyed : Table V → Type 0
  IsKeyed [] = Unit
  IsKeyed ((j, v) ∷ t) = (is_some (lookup j t) ≡ false) × IsKeyed t

  -- The same change to every row.
  abbrev pub map_rows : (V → V) → Table V → Table V
  map_rows f [] = []
  map_rows f ((j, v) ∷ t) = (j, f v) ∷ map_rows f t

module _ {ℓ} {V : Type ℓ} where
  pub lookup-erase_self : (k : Key) (t : Table V) → IsKeyed t → lookup k (erase k t) ≡ none
  lookup-erase_self k [] keyed = refl
  lookup-erase_self k ((j, v) ∷ t) (new, keyed) = ground (arith, lookup-erase_self k t keyed)

module _ {ℓ} {V : Type ℓ} (p : V → Bool) where
  pub find_many-missing :
      (k : Key) (t : Table V)
      → is_some (lookup k t) ≡ false
      → is_some (lookup k (find_many p t)) ≡ false
  find_many-missing k [] h = refl
  find_many-missing k ((j, v) ∷ t) h = ground (arith, find_many-missing k t)

  -- In a table with distinct keys the rows that pass a filter are found under their keys.
  pub lookup-find_many :
      (k : Key) (t : Table V) (v : V)
      → IsKeyed t
      → (lookup k (find_many p t) ≡ some v) ↔ ((lookup k t ≡ some v) × (p v ≡ true))
  lookup-find_many k [] v keyed = ground arith
  lookup-find_many k ((j, w) ∷ t) v (new, keyed) =
      ground (arith, lookup-find_many k t v keyed, find_many-missing k t)

  pub find_many-IsKeyed : (t : Table V) → IsKeyed t → IsKeyed (find_many p t)
  find_many-IsKeyed [] keyed = tt
  find_many-IsKeyed ((j, w) ∷ t) (new, keyed) = elim (Bool-cases (p w)) [
    | inl kept ↦ rw kept (find_many-missing j t new, find_many-IsKeyed t keyed)
    | inr out ↦ rw out (find_many-IsKeyed t keyed)
  ]

  -- A row that the filter leaves out is not found.
  pub lookup-find_many_out :
      (k : Key) (t : Table V) (v : V)
      → IsKeyed t
      → lookup k t ≡ some v
      → p v ≡ false
      → is_some (lookup k (find_many p t)) ≡ false
  lookup-find_many_out k [] v keyed h out = refl
  lookup-find_many_out k ((j, w) ∷ t) v (new, keyed) h out =
      ground (arith, h, out, lookup-find_many_out k t v keyed, find_many-missing k t)

-- The first row that passes a test passes it, and is the row of its key.
pub find_first-stored {ℓ} :
    {V : Type ℓ} (p : Key → V → Bool) (k : Key) (v : V) (t : Table V)
    → IsKeyed t
    → find_first p t ≡ some (k, v)
    → (p k v ≡ true) × (lookup k t ≡ some v)
find_first-stored p k v [] keyed h = absurd (cc)
find_first-stored p k v ((j, w) ∷ t) (new, keyed) h = elim (Bool-cases (p j w)) [
  | inl here ↦ ground (arith, h, here)
  | inr further ↦ ground (arith, h, further, new, find_first-stored p k v t keyed)
]

module _ {ℓ} {V : Type ℓ} (p : V → Bool) where
  -- The one changed row passes the test, no other does: it is the first that does.
  pub find_first-modify :
      (k : Key) (f : V → V) (v : V) (t : Table V)
      → lookup k t ≡ some v
      → p (f v) ≡ true
      → is_some (find_first (λ j w. not (j == k) && p w) t) ≡ false
      → find_first (λ _ w. p w) (modify k f t) ≡ some (k, f v)
  find_first-modify k f v [] found hit alone = absurd (cc)
  find_first-modify k f v ((j, w) ∷ t) found hit alone = elim (Bool-cases (k == j)) [
    | inl here ↦ ground (arith, found, hit, here)
    | inr further ↦ ground (arith, found, hit, alone, further, find_first-modify k f v t)
  ]

  pub find_first-append :
      (k : Key) (v : V) (t : Table V)
      → KeysBelow k t
      → p v ≡ true
      → is_some (find_first (λ j w. not (j == k) && p w) t) ≡ false
      → find_first (λ _ w. p w) (append k v t) ≡ some (k, v)
  find_first-append k v [] below hit alone = ground (arith, hit)
  find_first-append k v ((j, w) ∷ t) below hit alone =
      ground (arith, hit, alone, below.0, find_first-append k v t below.1)
