-- ===== src/Tests/Debts.antt =====
-- The list of debtors, evaluated on the small school.
use tutor_app_back.Debtors.{DebtorQuery, Debtor, owed, is_at_or_below, list}
use tutor_app_back.Debtors.Listed.{lists, is_ordered, scope_of, to_come, list_outcome}
use tutor_app_back.Reports.{asks_for_other}
use tutor_app_back.Tests.{head, north, pupil}
use tutor_app_back.Prelude.{
  ◌≡◌, refl, ◌⊎◌, Bool, true, false, ◌&&◌, ◌||◌, none, List, [], ◌∷◌, arith, ltb, length,
}
use tutor_app_back.Prelude.Int.{pos, negsuc}
use tutor_app_back.Model.{is_admin, Db, only_admin_other_tutor, ok, err}
use tutor_app_back.Model.Text.{Text}

-- Student 21 owes two lessons.
abbrev owing : Db
owing = record north { students = (20, pupil (pos 3)) ∷ (21, pupil (negsuc 1)) ∷ [] }

abbrev everybody : DebtorQuery
everybody = record { tutor_id = none; at_or_below = none }

-- Shorter names come first.
abbrev shorter : Text → Text → Bool
shorter x y = ltb (length x) (length y)

shorter_one_way : (x y : Text) → shorter x y ≡ true → shorter y x ≡ false
shorter_one_way x y h = ground (arith, h)

list_outcome_example :
    ((is_admin head.role ≡ false)
      × (asks_for_other head everybody.tutor_id ≡ true)
      × (list shorter (pos 0) head everybody owing ≡ (err only_admin_other_tutor, owing)))
    ⊎ ((ds : List Debtor) × (list shorter (pos 0) head everybody owing ≡ (ok ds, owing))
        × (is_ordered shorter ds ≡ true)
        × (lists 21 ds ≡ (
            is_at_or_below head (scope_of head everybody) (pos 0) (pupil (negsuc 1))
            && (ltb 0 (owed (negsuc 1)) || ltb 0 (to_come (pos 0) 21 owing)))))
list_outcome_example =
    list_outcome shorter (pos 0) head everybody owing 21 (pupil (negsuc 1)) shorter_one_way
      (refl, (refl, tt)) refl
