-- ===== src/Chain.antt =====
-- The chain service, go-ooo/chain: the event handlers, the job queue and the administration tasks
-- of one provider node, as programs over the node's state.
pub mod Env
pub mod Monad
pub mod Keeps
pub mod Caller
pub mod Events
pub mod Start
pub mod Fulfil
pub mod Jobs
pub mod Admin
pub mod Invariant
pub mod Schedule
pub mod Closed
pub mod Outcome
pub mod Isolation
pub mod Tests
