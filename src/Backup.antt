-- ===== src/Backup.antt =====
-- keyhub/backup.py: encrypted backups and their import.
pub mod Frame
pub mod Export
pub mod Import
pub mod Full
mod Framing
mod Restored
mod RoundTrip
mod Toy
mod Keeps
mod Lost
mod FullTrip
mod Tests
