-- ===== src/Auth.antt =====
-- keyhub/auth.py: sessions, API tokens and the dependency that guards every endpoint.
pub mod Scopes
pub mod Sessions
pub mod Guard
mod Matches
mod Epoch
mod Granted
mod Toy
mod Tests
