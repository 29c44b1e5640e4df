-- ===== src/Users/Settings.antt =====
-- A change of the settings of src/users/users.service.ts replaces the fields that it names, and no other.
use tutor_app_back.Meetings.Providers.{Url}
use tutor_app_back.Users.{
  UserConfig, UserConfigPatch, patch_fits, default_config, merge_user_config, set_config,
  update_config,
}
use tutor_app_back.Prelude.{
  ◌≡◌, refl, sym, ap, ◌∙◌, ◌≢◌, inl, inr, true, Option, some, arith, Bool-cases, is_some, get_or,
}
use tutor_app_back.Prelude.Table.{Key, lookup, modify, lookup-modify}
use tutor_app_back.Model.{UserRow, User, Db, Result, ok}
use tutor_app_back.Model.Text.{Text}

-- A field that the patch names has the new value, and the others the value from before.
abbrev pub Patched : UserConfig → UserConfigPatch → UserConfig → Type 0
Patched old p new =
    (new.lesson_reminders ≡ get_or p.lesson_reminders old.lesson_reminders)
    × (new.lesson_reminder_minutes ≡ get_or p.lesson_reminder_minutes old.lesson_reminder_minutes)
    × (new.grades_enabled ≡ get_or p.grades_enabled old.grades_enabled)
    × (new.meeting ≡ get_or p.meeting old.meeting)

ok_of_ok :
    {A : Type 0} {p : Result A × Db} {a b : A} {c d : Db} → p ≡ (ok a, c) → p ≡ (ok b, d) → a ≡ b
ok_of_ok e h = ground arith

module _ (parse_url : Text → Option Url) (read : Text → Option UserConfig)
    (render : UserConfig → Text) where
  update_config-ok :
      (user : User) (p : UserConfigPatch) (db : Db)
      → patch_fits parse_url p ≡ true
      → is_some (lookup user.id db.users) ≡ true
      → update_config parse_url read render user p db ≡ (
        ok (merge_user_config read user.config p),
        record db {
          users =
              modify user.id (set_config (render (merge_user_config read user.config p))) db.users;
        },
      )
  unfolding update_config
  update_config-ok user p db fine there = rw (fine, there, update_config) refl

  -- A change of settings that returns had a patch that the schema of writes lets through, returns the settings that the
  -- user had, or the defaults where the column cannot be read, with the fields that the patch names replaced and no other,
  -- and stores the text of that result in the column of this user alone.
  pub update_config-Patched :
      (user : User) (p : UserConfigPatch) (db : Db) (u : UserRow) {next : UserConfig} {d : Db}
      → update_config parse_url read render user p db ≡ (ok next, d)
      → lookup user.id db.users ≡ some u
      → (patch_fits parse_url p ≡ true)
        × Patched (get_or (read user.config) default_config) p next
        × (lookup user.id d.users ≡ some (record u { config = render next }))
        × ((j : Key) → j ≢ user.id → lookup j d.users ≡ lookup j db.users)
  unfolding update_config
  update_config-Patched user p db u {next} {d} h found =
      elim (Bool-cases (patch_fits parse_url p)) [
        | inr odd ↦ absurd (cc)
        | inl fine ↦ elim (Bool-cases (is_some (lookup user.id db.users))) [
          | inr missing ↦ absurd (cc)
          | inl there ↦
              let merged = merge_user_config read user.config p in
              let done = update_config-ok user p db fine there in
              let same : merged ≡ next = ok_of_ok done h in
              let stored : d.users ≡ modify user.id (set_config (render merged)) db.users =
                ap (λ q. q.1.users) (sym h ∙ done) in
              (
                fine,
                rw (← same) (refl, refl, refl, refl),
                rw stored (
                    rw (← same) (
                      ground (
                        arith,
                        found,
                        lookup-modify user.id user.id (set_config (render merged)) db.users,
                      ))),
                λ j ne.
                    ap (lookup j) stored
                    ∙ ground
                        (arith, ne, lookup-modify j user.id (set_config (render merged)) db.users),
              )
        ]
      ]
