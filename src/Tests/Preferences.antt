-- ===== src/Tests/Preferences.antt =====
-- The settings of a user, evaluated where the column cannot be read.
use tutor_app_back.Meetings.Providers.{Url}
use tutor_app_back.Users.{
  UserConfig, UserConfigPatch, default_config, patch_fits, update_config, read_config, absent, fit,
}
use tutor_app_back.Users.Settings.{Patched, update_config-Patched}
use tutor_app_back.Tests.{teacher, north, user_row}
use tutor_app_back.Prelude.{
  ℕ, zero, suc, ◌≡◌, refl, ◌≢◌, Bool, true, false, Option, none, some, [], ◌∷◌, get_or,
}
use tutor_app_back.Prelude.Table.{Key, lookup}
use tutor_app_back.Model.{tutor, zoom, ok}
use tutor_app_back.Model.Text.{Text}

-- No address can be read.
abbrev no_url : Text → Option Url
no_url s = none

-- No column can be read, so that the defaults stand for it.
abbrev read : Text → Option UserConfig
read raw = none

abbrev flag : Bool → ℕ
flag true = 49
flag false = 48

-- The settings but for the meeting, as a list of numbers.
abbrev render : UserConfig → Text
render c = flag c.lesson_reminders ∷ c.lesson_reminder_minutes ∷ flag c.grades_enabled ∷ []

abbrev patch : UserConfigPatch
patch = record {
  lesson_reminders = some true;
  lesson_reminder_minutes = some 45;
  grades_enabled = none;
  meeting = none;
}

abbrev settled : UserConfig
settled = record {
  lesson_reminders = true;
  lesson_reminder_minutes = 45;
  grades_enabled = true;
  meeting = none;
}

update_returns :
    update_config no_url read render teacher patch north
    ≡ (ok settled, (update_config no_url read render teacher patch north).1)
unfolding update_config
update_returns = refl

abbrev blanks : ℕ → Text
blanks zero = []
blanks (suc n) = 32 ∷ blanks n

-- A room of more than 500 blanks is refused, though no room would do.
long_room_is_refused :
    patch_fits no_url (record {
      lesson_reminders = none;
      lesson_reminder_minutes = none;
      grades_enabled = none;
      meeting = some (some (record { provider = zoom; room_url = some (blanks 501) }));
    })
    ≡ false
unfolding patch_fits
long_room_is_refused = refl

-- A room that no longer fits costs nobody the other settings.
old_room_is_dropped :
    read_config no_url (record {
      lesson_reminders = fit true;
      lesson_reminder_minutes = absent;
      grades_enabled = absent;
      meeting = fit (some (record { provider = zoom; room_url = some (blanks 501) }));
    })
    ≡ some (record {
      lesson_reminders = true;
      lesson_reminder_minutes = 30;
      grades_enabled = true;
      meeting = none;
    })
unfolding read_config
old_room_is_dropped = refl

update_config-Patched_example :
    (patch_fits no_url patch ≡ true)
    × Patched (get_or (read teacher.config) default_config) patch settled
    × (lookup 10 (update_config no_url read render teacher patch north).1.users
        ≡ some (record (user_row tutor) { config = render settled }))
    × ((j : Key)
        → j ≢ 10
        → lookup j (update_config no_url read render teacher patch north).1.users
          ≡ lookup j north.users)
update_config-Patched_example =
    update_config-Patched no_url read render teacher patch north (user_row tutor) update_returns
      refl
