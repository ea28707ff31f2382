-- ===== src/Proxy.antt =====
-- keyhub/llm/proxy.py: the calls of LLM providers.
pub mod Request
pub mod World
pub mod Attempt
pub mod Chat
pub mod Lines
pub mod Stream
pub mod StreamRounds
mod Returned
mod Balance
pub mod Held
pub mod Keeps
mod Permits
mod Traced
mod Calls
mod Again
mod Broken
mod Payload
pub mod Toy
mod Tests
mod StreamTests
