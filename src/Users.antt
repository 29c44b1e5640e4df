-- ===== src/Users.antt =====
-- src/users/user-config.ts and src/users/users.service.ts: the settings of a user. The column holds text; the parser of its JSON
-- and what the database makes of a value are parameters. `read` is `userConfigSchema` over such a parser, as `read_column`
-- has it; what follows asks nothing of it.
pub mod Settings
use tutor_app_back.Meetings.Providers.{Url, MeetingSettings, meeting_room_problem}
use tutor_app_back.Prelude.{
  ℕ, Bool, true, false, not, ◌&&◌, Option, none, some, leb, if◌then◌else◌, is_some, get_or, length,
}
use tutor_app_back.Prelude.Table.{lookup, modify}
use tutor_app_back.Model.{UserRow, User, config_invalid, record_missing, ok, Action, throw}
use tutor_app_back.Model.Text.{Text}

pub record UserConfig : Type 0 where
  pub lesson_reminders : Bool
  pub lesson_reminder_minutes : ℕ
  pub grades_enabled : Bool
  pub meeting : Option MeetingSettings

-- `fieldDefaults`
abbrev pub default_config : UserConfig
default_config = record {
  lesson_reminders = false;
  lesson_reminder_minutes = 30;
  grades_enabled = true;
  meeting = none;
}

-- An absent field changes nothing; `null` clears the meeting.
pub record UserConfigPatch : Type 0 where
  pub lesson_reminders : Option Bool
  pub lesson_reminder_minutes : Option ℕ
  pub grades_enabled : Option Bool
  pub meeting : Option (Option MeetingSettings)

abbrev pub minutes_fit : ℕ → Bool
minutes_fit n = leb 5 n && leb n 1440

abbrev pub patch_minutes_fit : Option ℕ → Bool
patch_minutes_fit none = true
patch_minutes_fit (some n) = minutes_fit n

-- `z.string().max(500).nullable()`
abbrev pub room_url_fits : Option Text → Bool
room_url_fits none = true
room_url_fits (some url) = leb (length url) 500

module _ (parse_url : Text → Option Url) where
  -- `meetingConfigSchema.nullable()`
  abbrev pub meeting_fits : Option MeetingSettings → Bool
  meeting_fits none = true
  meeting_fits (some m) =
      room_url_fits m.room_url
      && not (is_some (meeting_room_problem parse_url m.provider m.room_url))

  abbrev pub patch_meeting_fits : Option (Option MeetingSettings) → Bool
  patch_meeting_fits none = true
  patch_meeting_fits (some m) = meeting_fits m

  -- `userConfigPatchSchema`
  unfoldable pub patch_fits : UserConfigPatch → Bool
  patch_fits p = patch_minutes_fit p.lesson_reminder_minutes && patch_meeting_fits p.meeting

-- A field of the JSON: missing, of another type, or of its type, the minutes after their coercion to a number.
pub data Raw (A : Type 0) : Type 0 where
  absent unfit : Raw A
  fit : (value : A) → Raw A

pub record RawConfig : Type 0 where
  pub lesson_reminders : Raw Bool
  pub lesson_reminder_minutes : Raw ℕ
  pub grades_enabled : Raw Bool
  pub meeting : Raw (Option MeetingSettings)

-- A field with a default fails where it is of another type.
abbrev pub read_field : {A : Type 0} → A → Raw A → Option A
read_field default absent = some default
read_field default unfit = none
read_field default (fit a) = some a

abbrev pub read_minutes : Raw ℕ → Option ℕ
read_minutes (fit n) = if minutes_fit n then some n else none
read_minutes absent = some 30
read_minutes unfit = none

abbrev pub config_of :
    Option Bool → Option ℕ → Option Bool → Option MeetingSettings → Option UserConfig
config_of (some r) (some n) (some g) m =
    some (record {
      lesson_reminders = r;
      lesson_reminder_minutes = n;
      grades_enabled = g;
      meeting = m;
    })
config_of _ _ _ _ = none

module _ (parse_url : Text → Option Url) where
  -- A meeting that does not fit is no meeting, and fails nothing.
  abbrev pub read_meeting : Raw (Option MeetingSettings) → Option MeetingSettings
  read_meeting (fit m) = if meeting_fits parse_url m then m else none
  read_meeting absent = none
  read_meeting unfit = none

  -- `userConfigSchema`
  unfoldable pub read_config : RawConfig → Option UserConfig
  read_config raw =
      config_of (read_field false raw.lesson_reminders) (read_minutes raw.lesson_reminder_minutes)
        (read_field true raw.grades_enabled) (read_meeting raw.meeting)

  -- What is no object fails.
  unfoldable pub read_column : (Text → Option RawConfig) → Text → Option UserConfig
  unfolding read_config
  read_column json text = elim (json text) [ none ↦ none | some raw ↦ read_config raw ]

unfoldable pub parse_user_config : (Text → Option UserConfig) → Text → UserConfig
parse_user_config read raw = get_or (read raw) default_config

unfoldable pub merge_user_config : (Text → Option UserConfig) → Text → UserConfigPatch → UserConfig
unfolding parse_user_config
merge_user_config read raw p =
    let c = parse_user_config read raw in
    record {
      lesson_reminders = get_or p.lesson_reminders c.lesson_reminders;
      lesson_reminder_minutes = get_or p.lesson_reminder_minutes c.lesson_reminder_minutes;
      grades_enabled = get_or p.grades_enabled c.grades_enabled;
      meeting = get_or p.meeting c.meeting;
    }

abbrev pub set_config : Text → UserRow → UserRow
set_config raw u = record u { config = raw }

module _ (parse_url : Text → Option Url) (read : Text → Option UserConfig)
    (render : UserConfig → Text) where
  unfoldable pub get_config : User → UserConfig
  unfolding parse_user_config
  get_config user = parse_user_config read user.config

  unfoldable pub update_config : User → UserConfigPatch → Action UserConfig
  unfolding patch_fits merge_user_config
  update_config user p db =
      if not (patch_fits parse_url p)
      then throw config_invalid db
      else (if is_some (lookup user.id db.users)
          then (
            ok (merge_user_config read user.config p),
            record db {
              users =
                  modify user.id (set_config (render (merge_user_config read user.config p)))
                    db.users;
            },
          )
          else throw record_missing db)
