-- ===== src/Lib.antt =====
-- A model of the tutoring school's server: subjects, students, groups, lessons, the gradebook,
-- files, reports, debtors, notes, schools, members and their capabilities, invitations, meeting
-- accounts, announcements with their pushes, support with its mail, and the stored bytes of files.
--
-- The program is a NestJS application over PostgreSQL. Its services, one class to a folder of
-- src/, read and write the tables of prisma/schema.prisma and throw HTTP exceptions. The gradebook
-- asks the services of lessons and students whether a caller may touch a row; lessons, groups and
-- students ask the service of subjects whether a subject may be chosen.
--
-- A service method is an `Action`: a function from the database to a result and the database after
-- it. A write stays when a later step throws, unless the method runs in a transaction, as in the
-- program. Rows are under numbers for ids, in the order of insertion; a new row takes `next_id`.
-- Times are milliseconds and texts lists of UTF-16 code units. The clock is an argument. A method
-- runs alone (Members and Tenancy relate the databases before and after any sequence of calls),
-- except that a redemption of an invitation may run after any other step. Every loop runs over a
-- list, but the one of `send` in Push, which goes through the messages in slices: it has the number
-- of messages for its fuel, of which each slice takes one. The file service asks a storage for the
-- bytes, through a record of operations that both drivers fill.
--
--   Prelude      library names, Boolean tests, lists, integers and tables
--   Model        the rows, the exceptions, the monad of actions, and the cascades of a deletion
--   Subjects     src/subjects/subjects.service.ts (`SubjectsService`)
--   Students     src/students/students.service.ts (`StudentsService`)
--   Groups       src/groups/groups.service.ts (`GroupsService`)
--   Meetings     src/meetings: Providers (meeting-providers.ts), Cipher (token-cipher.ts), Accounts
--                (`MeetingAccountsService`), Endpoints (oauth-providers.ts)
--   Lessons      src/lessons/lessons.service.ts (`LessonsService`)
--   Access       who reaches which student, group or lesson, over the three services above
--   Gradebook    src/gradebook: Journal (`writeJournal`), Marks (the grades), Progress (progress.ts)
--   Files        src/files/files.service.ts (`FilesService`) and file-signatures.ts
--   Reports      src/reports/reports.service.ts (`ReportsService`)
--   Invitations  src/invitations/invitations.service.ts (`InvitationsService`)
--   Notes        src/notes/notes.service.ts (`NotesService`)
--   Addons       src/addons/addons.service.ts (`AddonsService`) and src/common/guards/addon.guard.ts
--   Schools      src/schools/schools.service.ts (`SchoolsService`)
--   Users        src/users/users.service.ts (`UsersService`) and user-config.ts
--   Env          src/config/env.ts (`validateEnv`)
--   Sessions     src/auth/user-store.ts (`PrismaAuthUserStore`, `AuthSessionMapper`)
--   Storage      src/files: the operations that `FilesService` asks of a storage with their laws, the
--                drivers Local (local-storage.service.ts) and Bucket (s3-storage.service.ts), Keys
--                (storage.service.ts), and in Kept the uploads, the opening and the removal of a file
--                over the rows and the bytes together
--   Web          src/common/guards/throttler-by-caller.guard.ts (Callers), the origins of
--                src/app-setup.ts (Origins), src/invitations/invite-page.controller.ts (InvitePage)
--   Mail         src/mail/mail.service.ts (`MailService`)
--   Tenancy      the references between subjects, students, groups, members and lessons, over the
--                calls that write them
--   Members      users, schools and invitations together, over the calls that write them
--   Debtors      src/reports/debtors.service.ts (`DebtorsService`)
--   Push         src/push: `PushService`, Credentials (fcm-credentials.ts), Devices (`DevicesService`)
--   Notifications  src/notifications/notifications.service.ts (`NotificationsService`)
--   Support      src/support/support.service.ts (`SupportService`)
--   Tests        a small school on which the services are evaluated
--
-- Parameters: the search of the database for a like name, the parser of addresses, the random
-- link of a room, what meeting providers, the mail provider, FCM and the token endpoints answer, the
-- parsers of JSON and of settings, the authenticated encryption of the platform, what the token
-- library says of a token, the collation of names, the hash of a password, how an id is written, the
-- resolution of a path, what a write leaves on the disk, and whether a request to the bucket
-- returned. The doubles of an average and a rate and their operations are parameters too. A grade's
-- value is a whole number of units, with the number of units to one as a parameter of its bounds.
--
-- Not modelled: controllers that hand a request to a service, payload validation, the joined rows
-- and the orderings of answers, the sessions and their guard and the counting of requests, which
-- belong to libraries, the signing of assertions, the schema of the configuration, the seed and the
-- scripts.
pub mod Prelude
pub mod Model
pub mod Subjects
pub mod Students
pub mod Groups
pub mod Meetings
pub mod Lessons
pub mod Access
pub mod Gradebook
pub mod Files
pub mod Reports
pub mod Invitations
pub mod Notes
pub mod Addons
pub mod Schools
pub mod Users
pub mod Debtors
pub mod Sessions
pub mod Members
pub mod Env
pub mod Storage
pub mod Tenancy
pub mod Web
pub mod Mail
pub mod Push
pub mod Notifications
pub mod Support
pub mod Tests
