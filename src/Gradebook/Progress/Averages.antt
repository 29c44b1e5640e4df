-- ===== src/Gradebook/Progress/Averages.antt =====
-- The weighted mean of `averageOf` of src/gradebook/progress.ts, over the doubles as they are, against its definition by
-- sums over the grades that count.
use mathlib.Core.List.{foldl}
use tutor_app_back.Gradebook.Progress.{GradeLike, Doubles, Sums, add_grade, round2}
use tutor_app_back.Gradebook.Progress.{GradeAverage, average_from, no_sums, average_of}
use tutor_app_back.Prelude.{
  ℕ, ◌+◌, ◌≡◌, refl, ap, ◌∙◌, inl, inr, Bool, true, false, not, ◌&&◌, Option, none, some, List, [],
  ◌∷◌, arith, Bool-cases, Option-cases, is_some, get_or, length, filter, All,
}
use tutor_app_back.Prelude.Int.{ℤ, pos, leb_ℤ}

-- A grade that counts: it has a value and a positive weight.
abbrev pub counts : GradeLike → Bool
counts g = is_some g.value && not (leb_ℤ g.weight (pos 0))

abbrev pub value_of : GradeLike → ℕ
value_of g = get_or g.value 0

-- A weight that is not zero or less.
abbrev pub IsWeight : ℤ → Type 0
IsWeight w = leb_ℤ w (pos 0) ≡ false

module _ {Number : Type 0} (n : Doubles Number) where
  -- The weights, and the products of value and weight, added from the left.
  abbrev pub sum_weights : Number → List GradeLike → Number
  sum_weights x [] = x
  sum_weights x (g ∷ gs) = sum_weights (n.add x (n.of_integer g.weight)) gs

  abbrev pub sum_weighted : Number → List GradeLike → Number
  sum_weighted x [] = x
  sum_weighted x (g ∷ gs) =
      sum_weighted (n.add x (n.mul (n.of_value (value_of g)) (n.of_integer g.weight))) gs

  -- What the IEEE doubles do: zero is zero, and positive integers never add up to zero.
  pub record HasWeights : Type 0 where
    pub zero_weight : n.is_zero (n.of_integer (pos 0)) ≡ true
    pub some_weight :
        (g : GradeLike) (gs : List GradeLike)
        → All (λ (h : GradeLike). IsWeight h.weight) (g ∷ gs)
        → n.is_zero (sum_weights (n.of_integer (pos 0)) (g ∷ gs)) ≡ false

  -- What the loop gathers from the rest when it has read one grade more.
  add_grade-step :
      (s : Sums Number) (g : GradeLike) (gs : List GradeLike)
      → ◌≡◌ {A = Sums Number}
          (record {
            weighted = sum_weighted (add_grade n s g).weighted (filter counts gs);
            weight = sum_weights (add_grade n s g).weight (filter counts gs);
            count = (add_grade n s g).count + length (filter counts gs);
          })
          (record {
            weighted = sum_weighted s.weighted (filter counts (g ∷ gs));
            weight = sum_weights s.weight (filter counts (g ∷ gs));
            count = s.count + length (filter counts (g ∷ gs));
          })
  unfolding add_grade
  add_grade-step s g gs = elim (Option-cases (g.value)) [
    | inl missing ↦ rw missing refl
    | inr (v, there) ↦ elim (Bool-cases (leb_ℤ g.weight (pos 0))) [
      | inl weightless ↦ rw (there, weightless) refl
      | inr heavy ↦ rw (there, heavy) (ground (arith, there))
    ]
  ]

  -- What the loop has gathered when it ends.
  foldl-add_grade :
      (s : Sums Number) (gs : List GradeLike)
      → foldl (add_grade n) s gs ≡ record {
        weighted = sum_weighted s.weighted (filter counts gs);
        weight = sum_weights s.weight (filter counts gs);
        count = s.count + length (filter counts gs);
      }
  unfolding add_grade
  foldl-add_grade s [] = ground arith
  foldl-add_grade s (g ∷ gs) = foldl-add_grade (add_grade n s g) gs ∙ add_grade-step s g gs

  gathered :
      (gs : List GradeLike)
      → foldl (add_grade n) (no_sums n) gs ≡ record {
        weighted = sum_weighted (n.of_integer (pos 0)) (filter counts gs);
        weight = sum_weights (n.of_integer (pos 0)) (filter counts gs);
        count = length (filter counts gs);
      }
  gathered gs = foldl-add_grade (no_sums n) gs ∙ ground arith

  filter-All : (gs : List GradeLike) → All (λ (h : GradeLike). IsWeight h.weight) (filter counts gs)
  filter-All [] = tt
  filter-All (g ∷ gs) = elim (Bool-cases (counts g)) [
    | inl counted ↦ rw counted (ground (arith, counted), filter-All gs)
    | inr skipped ↦ rw skipped (filter-All gs)
  ]

  -- The mean of these grades: the sum of the products over the sum of the weights, to two places.
  abbrev pub mean : List GradeLike → Option (GradeAverage Number)
  mean [] = none
  mean (g ∷ gs) = some (record {
    average = round2 n (
        n.div (sum_weighted (n.of_integer (pos 0)) (g ∷ gs))
          (sum_weights (n.of_integer (pos 0)) (g ∷ gs)));
    count = length (g ∷ gs);
  })

  average_from-mean :
      (gs : List GradeLike)
      → HasWeights
      → All (λ (h : GradeLike). IsWeight h.weight) gs
      → average_from n (record {
        weighted = sum_weighted (n.of_integer (pos 0)) gs;
        weight = sum_weights (n.of_integer (pos 0)) gs;
        count = length gs;
      })
        ≡ mean gs
  unfolding average_from
  average_from-mean [] law heavy = rw (law.zero_weight) refl
  average_from-mean (g ∷ gs) law heavy = rw (law.some_weight g gs heavy) refl

  -- Where positive weights do not add up to zero, the average of grades is the sum of value times weight over the sum of the
  -- weights, rounded, of the grades with a value and a positive weight, and their number; with no such grade there is none.
  pub average_of-mean :
      HasWeights → (gs : List GradeLike) → average_of n gs ≡ mean (filter counts gs)
  unfolding average_of
  average_of-mean law gs =
      ap (average_from n) (gathered gs) ∙ average_from-mean (filter counts gs) law (filter-All gs)
