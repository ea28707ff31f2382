-- ===== src/Balancer.antt =====
-- keyhub/llm/balancer.py: the key balancer. `Balancer` is the memory of `KeyBalancer`, the table
-- `llm_keys` is a list of rows, and both are passed along. A clock gives the wall time
-- (`datetime.utcnow`) and the monotonic time, in milliseconds.
pub mod State
pub mod Query
pub mod Select
pub mod Mark
mod Breaker
mod Rounds
pub mod Slots
pub mod Taken
mod Chosen
mod Eligible
mod Parked
mod Tests
