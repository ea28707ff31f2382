-- ===== src/Runtime.antt =====
-- keyhub/runtime.py: the master password, the vault and the lock that guards it.
pub mod State
pub mod Change
pub mod RwLock
mod Kept
mod Password
mod History
pub mod Toy
mod Exclusion
mod Tests
