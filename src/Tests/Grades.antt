-- ===== src/Tests/Grades.antt =====
-- Grades and averages, evaluated on the small school.
use tutor_app_back.Lessons.{student_ids_for}
use tutor_app_back.Gradebook.Progress.{GradeLike, Doubles, average_of}
use tutor_app_back.Gradebook.Progress.Averages.{
  counts, mean, sum_weights, HasWeights, average_of-mean,
}
use tutor_app_back.Gradebook.Marks.{WriteGrade, data_from, add_for_lesson, blank_grade}
use tutor_app_back.Gradebook.Marks.Scale.{IsInScale}
use tutor_app_back.Gradebook.Marks.Filing.{add_for_lesson_outcome}
use tutor_app_back.Tests.{teacher, north, school_row}
use tutor_app_back.Prelude.{
  ℕ, ◌+◌, ◌*◌, ◌/◌, ◌≤◌, ◌≡◌, refl, ◌⊎◌, true, none, some, List, [], ◌∷◌, arith, ◌==◌,
  if◌then◌else◌, filter, contains,
}
use tutor_app_back.Prelude.Int.{pos, pos_part}
use tutor_app_back.Prelude.Table.{Key, lookup}
use tutor_app_back.Model.{classic, percentage, GradeRow, Db, Error, ok, err}

-- Hundredths: 5, weight 2; 4, weight 1; one without a value; one without a weight.
abbrev given : List GradeLike
given =
    record { kind = classic; value = some 500; weight = pos 2 }
    ∷ record { kind = classic; value = some 400; weight = pos 1 }
    ∷ record { kind = percentage; value = none; weight = pos 1 }
    ∷ record { kind = classic; value = some 1200; weight = pos 0 }
    ∷ []

-- Whole numbers in place of the doubles.
abbrev pub whole : Doubles ℕ
whole = record {
  of_value = λ v. v;
  of_integer = pos_part;
  add = λ x y. x + y;
  mul = λ x y. x * y;
  div = λ x y. x / y;
  round = λ x. x;
  is_zero = λ x. x == 0;
}

le-sum_weights : (x : ℕ) (gs : List GradeLike) → x ≤ sum_weights whole x gs
le-sum_weights x [] = omega arith
le-sum_weights x (g ∷ gs) = omega (arith, le-sum_weights (x + pos_part g.weight) gs)

whole-HasWeights : HasWeights whole
whole-HasWeights = record {
  zero_weight = refl;
  some_weight = λ g gs (heavy, _). ground (arith, heavy, le-sum_weights (pos_part g.weight) gs);
}

-- The two grades that count weigh three.
mean_of_given : average_of whole given ≡ some (record { average = 466; count = 2 })
unfolding average_of
mean_of_given = refl

average_of-mean_example : average_of whole given ≡ mean whole (filter counts given)
average_of-mean_example = average_of-mean whole whole-HasWeights given

abbrev five : WriteGrade
five = record {
  kind = classic;
  value = some 500;
  category = none;
  comment = none;
  weight = none;
  student_id = some 21;
}

abbrev filed : Key → GradeRow
filed student = data_from five (blank_grade (pos 2000) student (some 40) 10)

add_for_lesson_outcome_example :
    ((e : Error) × (add_for_lesson 100 (pos 2000) teacher 40 five north ≡ (err e, north)))
    ⊎ ((student : Key) × (d : Db) × (add_for_lesson 100 (pos 2000) teacher 40 five north
          ≡ (ok 100, d))
        × (contains student (student_ids_for 40 north) ≡ true)
        × IsInScale 100 600 (filed student)
        × ((j : Key)
            → lookup j d.grades
              ≡ (if j == 100 then some (filed student) else lookup j north.grades)))
add_for_lesson_outcome_example =
    add_for_lesson_outcome 100 (pos 2000) teacher 40 five north school_row refl (omega arith, tt)
