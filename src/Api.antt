-- ===== src/Api.antt =====
-- keyhub/api: the endpoints.
pub mod Unlock
mod Lockout
mod Crowd
mod AtOnce
mod Tests
