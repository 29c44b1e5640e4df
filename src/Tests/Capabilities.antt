-- ===== src/Tests/Capabilities.antt =====
-- The capabilities of the members, evaluated on the small school.
use tutor_app_back.Addons.{includes, set_for, can_activate}
use tutor_app_back.Addons.Replacing.{may, answer, set_for_outcome}
use tutor_app_back.Tests.{head, north}
use tutor_app_back.Prelude.{
  ◌≡◌, ◌⊎◌, true, false, ◌||◌, none, some, List, [], ◌∷◌, ◌==◌, if◌then◌else◌,
}
use tutor_app_back.Prelude.Table.{lookup}
use tutor_app_back.Model.{is_admin, AddonKey, invite_tutors, UserRow, User, Db, Error, ok, err}

abbrev asked : List AddonKey
asked = invite_tutors ∷ invite_tutors ∷ []

set_for_outcome_example :
    ((e : Error) × (set_for head 10 asked north ≡ (err e, north))
      × ((lookup 10 north.users ≡ none)
          ⊎ ((target : UserRow) × (lookup 10 north.users ≡ some target)
              × (((target.school_id == head.school_id) ≡ false) ⊎ (is_admin target.role ≡ true)))))
    ⊎ ((target : UserRow) × (held : List AddonKey) × (d : Db) × (lookup 10 north.users
          ≡ some target)
        × ((target.school_id == head.school_id) ≡ true)
        × (is_admin target.role ≡ false)
        × (set_for head 10 asked north ≡ (ok held, d))
        × ((a : AddonKey) → includes a held ≡ includes a asked)
        × ((who : User) (a : AddonKey)
            → can_activate (some a) who d ≡ (
              answer (
                  is_admin who.role
                  || (if who.id == 10 then includes a asked else may who.id a north.addons)),
              d,
            )))
set_for_outcome_example = set_for_outcome head 10 asked north
