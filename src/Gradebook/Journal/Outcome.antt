-- ===== src/Gradebook/Journal/Outcome.antt =====
-- `write_journal` refuses and writes nothing, or returns with the whole journal stored.
use tutor_app_back.Lessons.{find_reachable}
use tutor_app_back.Access.{find_reachable-state}
use tutor_app_back.Gradebook.Journal.{
  MarkAttendance, WriteJournal, check_marks, patch_lesson, store_journal, write_journal,
}
use tutor_app_back.Prelude.{◌≡◌, refl, sym, ap, ◌∙◌, ◌⊎◌, inl, inr, List, [], ◌∷◌, arith, get_or}
use tutor_app_back.Prelude.Table.{Key}
use tutor_app_back.Model.{User, LessonRow, Db, Error, ok, err, Action-cases, returned_here}

pub check_marks-state :
    (lesson : Key) (ms : List MarkAttendance) (db : Db) → (check_marks lesson ms db).1 ≡ db
unfolding check_marks
check_marks-state lesson [] db = refl
check_marks-state lesson (m ∷ ms) db = ground arith

-- The two ways in which a call may end.
abbrev pub JournalOutcome : User → Key → WriteJournal → Db → Type 0
JournalOutcome user lesson dto db =
    ((e : Error) × (write_journal user lesson dto db ≡ (err e, db)))
    ⊎ ((l : LessonRow) × (d : Db) × (find_reachable user lesson db ≡ (ok l, db))
        × (check_marks lesson (get_or dto.attendance []) db ≡ (ok tt, db))
        × (store_journal lesson dto db ≡ (ok tt, d))
        × (write_journal user lesson dto db ≡ (ok (patch_lesson dto l), d)))

module _ (user : User) (lesson : Key) (dto : WriteJournal) (db : Db) where
  journal-unreachable :
      (e : Error) (d : Db)
      → find_reachable user lesson db ≡ (err e, d)
      → write_journal user lesson dto db ≡ (err e, db)
  unfolding write_journal
  journal-unreachable e d failed = ground (arith, find_reachable-state user lesson db)

  journal-refused :
      (l : LessonRow) (d d₁ : Db) (e : Error)
      → find_reachable user lesson db ≡ (ok l, d)
      → check_marks lesson (get_or dto.attendance []) db ≡ (err e, d₁)
      → write_journal user lesson dto db ≡ (err e, db)
  unfolding write_journal
  journal-refused l d d₁ e found failed =
      let here : d ≡ db = sym (ap (λ p. p.1) found) ∙ find_reachable-state user lesson db in
      let same : d₁ ≡ db =
        sym (ap (λ p. p.1) failed) ∙ check_marks-state lesson (get_or dto.attendance []) db in
      ground arith

  module _ (l : LessonRow) (found : find_reachable user lesson db ≡ (ok l, db))
      (checked : check_marks lesson (get_or dto.attendance []) db ≡ (ok tt, db)) where
    journal-undone :
        (e : Error) (d : Db)
        → store_journal lesson dto db ≡ (err e, d)
        → write_journal user lesson dto db ≡ (err e, db)
    unfolding write_journal
    journal-undone e d failed = ground arith

    pub journal-stored :
        (d : Db)
        → store_journal lesson dto db ≡ (ok tt, d)
        → write_journal user lesson dto db ≡ (ok (patch_lesson dto l), d)
    unfolding write_journal
    journal-stored d stored = ground arith

  -- A call that throws leaves the database as it was, register and balances included; a call that
  -- returns has found the lesson, has passed the checks and has stored the whole journal.
  pub write_journal-JournalOutcome : JournalOutcome user lesson dto db
  write_journal-JournalOutcome = elim (Action-cases (find_reachable user lesson) db) [
    | inl (e, d, missing) ↦ inl (e, journal-unreachable e d missing)
    | inr (l, d, found) ↦ elim (Action-cases (check_marks lesson (get_or dto.attendance [])) db) [
      | inl (e, d₁, failed) ↦ inl (e, journal-refused l d d₁ e found failed)
      | inr (_, d₁, checked) ↦
          let found' : find_reachable user lesson db ≡ (ok l, db) =
            returned_here (find_reachable-state user lesson db) found in
          let checked' : check_marks lesson (get_or dto.attendance []) db ≡ (ok tt, db) =
            returned_here (check_marks-state lesson (get_or dto.attendance []) db) checked in
          elim (Action-cases (store_journal lesson dto) db) [
            | inl (e, d₂, failed) ↦ inl (e, journal-undone l found' checked' e d₂ failed)
            | inr (_, d₂, stored) ↦
                inr (l, d₂, found', checked', stored, journal-stored l found' checked' d₂ stored)
          ]
    ]
  ]
