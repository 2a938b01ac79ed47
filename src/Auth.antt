-- ===== src/Auth.antt =====
-- src/web/authentication.c and src/web/authentication.h: users, sessions and the check of a
-- request.
pub mod State
pub mod Session
pub mod Users
pub mod Login
