-- ===== src/Model/Rows.antt =====
-- The enumerations and rows of prisma/schema.prisma, with the columns that the services read or
-- write. An id, a cuid in the program, is only compared: it is a number. An instant is a number of
-- milliseconds, as `getTime()` gives it.
use tutor_app_back.Prelude.{ℕ, Bool, true, false, Option, List}
use tutor_app_back.Prelude.Int.{ℤ}
use tutor_app_back.Prelude.Table.{Key, Table}
use tutor_app_back.Model.Text.{Text}

pub data UserRole : Type 0 where
  tutor admin : UserRole

-- `user.role === 'ADMIN'`
abbrev pub is_admin : UserRole → Bool
is_admin tutor = false
is_admin admin = true

pub data LessonStatus : Type 0 where
  scheduled completed cancelled : LessonStatus

pub data AttendanceStatus : Type 0 where
  present late absent_excused absent_unexcused : AttendanceStatus

pub data GradeKind : Type 0 where
  classic percentage descriptive : GradeKind

pub data MeetingProvider : Type 0 where
  zoom google_meet jitsi : MeetingProvider

pub data FilePurpose : Type 0 where
  avatar school_logo lesson_attachment student_attachment tutor_library other : FilePurpose

pub data NotificationKind : Type 0 where
  admin_announcement tutor_joined payment_running_out : NotificationKind

pub data DevicePlatform : Type 0 where
  android ios web : DevicePlatform

pub data AddonKey : Type 0 where
  invite_tutors broadcast_announcements manage_students : AddonKey

pub record SchoolRow : Type 0 where
  pub name : Text
  pub slug : Text
  pub timezone : Text
  -- in the units of `Progress.Averages`, like the value of a grade
  pub grade_scale_max : ℕ

pub record UserRow : Type 0 where
  pub email : Text
  pub password_hash : Text
  pub name : Text
  pub role : UserRole
  pub school_id : Key
  pub token_version : ℕ
  -- the settings as they stand in the column, which only `parseUserConfig` reads
  pub config : Text

pub record User : Type 0 where
  pub id : Key
  pub row : UserRow
  pub open row use *

pub record SubjectRow : Type 0 where
  pub name : Text
  pub hidden_at : Option ℤ
  pub school_id : Key

pub record StudentRow : Type 0 where
  pub name : Text
  pub paid_lessons_left : ℤ
  pub school_id : Key
  pub tutor_id : Key
  pub subject_id : Option Key

pub record GroupRow : Type 0 where
  pub name : Text
  pub level : Option Text
  pub school_id : Key
  pub tutor_id : Key
  pub subject_id : Option Key

pub record MemberRow : Type 0 where
  pub group_id : Key
  pub student_id : Key

pub record LessonRow : Type 0 where
  pub starts_at : ℤ
  pub duration_minutes : ℕ
  pub status : LessonStatus
  pub school_id : Key
  pub tutor_id : Key
  pub subject_id : Option Key
  pub student_id : Option Key
  pub group_id : Option Key
  pub topic : Option Text
  pub homework : Option Text
  pub meeting_url : Option Text
  pub meeting_provider : Option MeetingProvider

-- Unique by lesson and student.
pub record AttendanceRow : Type 0 where
  pub lesson_id : Key
  pub student_id : Key
  pub status : AttendanceStatus
  pub homework_done : Option Bool

pub record GradeRow : Type 0 where
  pub kind : GradeKind
  pub value : Option ℕ
  pub category : Option Text
  pub comment : Option Text
  pub weight : ℤ
  pub student_id : Key
  pub lesson_id : Option Key
  pub author_id : Key
  pub created_at : ℤ

pub record NoteRow : Type 0 where
  pub text : Text
  pub author_id : Key
  pub student_id : Option Key
  pub lesson_id : Option Key

-- The unique column `storageKey`: the placeholder, or the school and the id of the file.
pub data StorageKey : Type 0 where
  pending : StorageKey
  key_for : Key → Key → StorageKey

pub record FileRow : Type 0 where
  pub storage_key : StorageKey
  pub original_name : Text
  pub mime_type : Text
  pub size_bytes : ℕ
  pub purpose : FilePurpose
  pub uploaded_at : Option ℤ
  pub school_id : Key
  pub uploaded_by_id : Key
  pub student_id : Option Key
  pub lesson_id : Option Key

pub record InvitationRow : Type 0 where
  pub email : Text
  pub token : Text
  pub role : UserRole
  pub expires_at : ℤ
  pub accepted_at : Option ℤ
  pub school_id : Key
  pub invited_by_id : Key

-- Unique by user and addon.
pub record UserAddonRow : Type 0 where
  pub user_id : Key
  pub addon : AddonKey
  pub enabled_by_id : Key

-- Unique by user and provider; the tokens as they are stored.
pub record MeetingAccountRow : Type 0 where
  pub provider : MeetingProvider
  pub user_id : Key
  pub refresh_token : Text
  pub access_token : Option Text
  pub access_token_expires_at : Option ℤ
  pub account_label : Option Text

-- Unique by token.
pub record PushTokenRow : Type 0 where
  pub token : Text
  pub platform : DevicePlatform
  pub last_seen_at : ℤ
  pub user_id : Key

-- The values for the message: a text, where there is one, and the name of a person.
pub record NotificationRow : Type 0 where
  pub kind : NotificationKind
  pub text : Option Text
  pub person_name : Text
  pub read_at : Option ℤ
  pub recipient_id : Key

pub record SupportRow : Type 0 where
  pub message : Text
  pub notified_at : Option ℤ
  pub user_id : Key
  pub school_id : Key

-- `next_id` is an id that no row has yet; `create` takes it.
pub record Db : Type 0 where
  pub schools : Table SchoolRow
  pub users : Table UserRow
  pub subjects : Table SubjectRow
  pub students : Table StudentRow
  pub groups : Table GroupRow
  pub members : List MemberRow
  pub lessons : Table LessonRow
  pub attendances : List AttendanceRow
  pub grades : Table GradeRow
  pub notes : Table NoteRow
  pub files : Table FileRow
  pub invitations : Table InvitationRow
  pub addons : List UserAddonRow
  pub meeting_accounts : Table MeetingAccountRow
  pub push_tokens : List PushTokenRow
  pub notifications : Table NotificationRow
  pub support_requests : Table SupportRow
  pub next_id : Key
