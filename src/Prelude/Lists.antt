-- ===== src/Prelude/Lists.antt =====
-- Lists measured by native numbers, filters by Boolean tests, and sums.
use Prim.Native.Nat.{ℕ, zero, suc, ◌+◌, ◌≤◌, min}
use mathlib.Core.Path.{◌≡◌, refl, sym, ap, ◌∙◌}
use mathlib.Core.Bool.{Bool, true, false, ◌&&◌, ◌||◌}
use mathlib.Core.List.{List, [], ◌∷◌, ◌++◌}
use native.Mathlib.Omega.{arith}
use tutor_app_back.Prelude.Tests.{if◌then◌else◌, ◌==◌}

module _ {ℓ} {A : Type ℓ} where
  abbrev pub length : List A → ℕ
  length [] = 0
  length (x ∷ xs) = suc (length xs)

  -- `xs.filter(p)`
  abbrev pub filter : (A → Bool) → List A → List A
  filter p [] = []
  filter p (x ∷ xs) = if p x then x ∷ filter p xs else filter p xs

  -- `xs.some(p)`
  abbrev pub any : (A → Bool) → List A → Bool
  any p [] = false
  any p (x ∷ xs) = p x || any p xs

  -- `xs.every(p)`
  abbrev pub all : (A → Bool) → List A → Bool
  all p [] = true
  all p (x ∷ xs) = p x && all p xs

  abbrev pub sum_by : (A → ℕ) → List A → ℕ
  sum_by f [] = 0
  sum_by f (x ∷ xs) = f x + sum_by f xs

  -- `xs.slice(0, n)`
  abbrev pub take : ℕ → List A → List A
  take zero xs = []
  take (suc n) [] = []
  take (suc n) (x ∷ xs) = x ∷ take n xs

  -- `xs.slice(n)`
  abbrev pub skip : ℕ → List A → List A
  skip zero xs = xs
  skip (suc n) [] = []
  skip (suc n) (x ∷ xs) = skip n xs

  pub skip-nil : (n : ℕ) → skip n [] ≡ []
  skip-nil zero = refl
  skip-nil (suc n) = refl

  skip-cons : (x : A) (xs : List A) (n k : ℕ) → k ≡ suc n → skip k (x ∷ xs) ≡ skip n xs
  skip-cons x xs n k h = ap (λ j. skip j (x ∷ xs)) h

  pub skip-skip : (i n : ℕ) (xs : List A) → skip n (skip i xs) ≡ skip (i + n) xs
  skip-skip i n [] = ap (skip n) (skip-nil i) ∙ skip-nil n ∙ sym (skip-nil (i + n))
  skip-skip zero n (x ∷ xs) = ground arith
  skip-skip (suc i) n (x ∷ xs) =
      skip-skip i n xs ∙ sym (skip-cons x xs (i + n) (suc i + n) (omega arith))

  pub skip-all : (n : ℕ) (xs : List A) → length xs ≤ n → skip n xs ≡ []
  skip-all zero [] h = refl
  skip-all zero (x ∷ xs) h = absurd (omega (arith, h))
  skip-all (suc n) [] h = refl
  skip-all (suc n) (x ∷ xs) h = skip-all n xs (omega (arith, h))

  pub take-skip : (n : ℕ) (xs : List A) → take n xs ++ skip n xs ≡ xs
  take-skip zero xs = refl
  take-skip (suc n) [] = refl
  take-skip (suc n) (x ∷ xs) = ap (λ ys. x ∷ ys) (take-skip n xs)

  pub length-append : (xs ys : List A) → length (xs ++ ys) ≡ length xs + length ys
  length-append [] ys = omega arith
  length-append (x ∷ xs) ys = omega (arith, length-append xs ys)

  pub length-filter-le : (p : A → Bool) (xs : List A) → length (filter p xs) ≤ length xs
  length-filter-le p [] = omega arith
  length-filter-le p (x ∷ xs) = ground (arith, length-filter-le p xs)

  pub length-take : (n : ℕ) (xs : List A) → length (take n xs) ≡ min n (length xs)
  length-take zero xs = omega arith
  length-take (suc n) [] = omega arith
  length-take (suc n) (x ∷ xs) = omega (arith, length-take n xs)

module _ {ℓ κ} {A : Type ℓ} (P : A → Type κ) where
  -- `P` holds of every element.
  abbrev pub All : List A → Type κ
  All [] = Unit
  All (x ∷ xs) = P x × All xs

-- `xs.includes(k)` and `new Set(xs).has(k)`, on keys.
abbrev pub contains : ℕ → List ℕ → Bool
contains k [] = false
contains k (x ∷ xs) = k == x || contains k xs

-- `[...new Set(xs)]`: the first occurrence of each key, in order of insertion.
abbrev pub add_key : ℕ → List ℕ → List ℕ
add_key k ks = if contains k ks then ks else ks ++ k ∷ []

abbrev pub once : Bool → ℕ
once true = 1
once false = 0

-- How often a key stands in a list.
abbrev pub times : ℕ → List ℕ → ℕ
times k [] = 0
times k (j ∷ ks) = once (k == j) + times k ks
