-- ===== src/Web.antt =====
-- The parts of the HTTP layer that decide something: src/common/guards/throttler-by-caller.guard.ts, the origins of
-- src/app-setup.ts and src/invitations/invite-page.controller.ts.
pub mod Callers
pub mod Origins
pub mod InvitePage
