-- ===== src/Model.antt =====
-- The rows that prisma/schema.prisma declares, the database that holds them, and the exceptions that
-- the services throw. A caller of a service is a `User`: a row of the user table with its id.
mod Rows
mod Monad
pub mod Text
mod Cascade
pub use Rows.*
pub use Monad.*
pub use Cascade.{is_key, is_deleted, is_deleted_ref, clear_lesson}
unfoldable pub use Cascade.{delete_lessons, delete_group, delete_student}
