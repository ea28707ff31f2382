-- ===== src/Store.antt =====
-- keyhub/store.py: the credentials, their encryption and their versions. A call gets the database
-- and what the source draws (ids, nonce, time), and returns the database after it: as before where
-- the transaction is rolled back. Values are the UTF-8 bytes of the source's texts.
pub mod Defs
pub mod Rows
pub mod Ops
pub mod Reveal
mod Versions
pub mod Failures
mod Tests
