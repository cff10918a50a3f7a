-- ===== src/Scheduler.antt =====
-- k3_aiScheduler: from a parsed graph to the order in which a worker runs its nodes.
pub mod TaskLink
pub mod Schedule
pub mod Chain
pub mod Checks
pub mod Resolve
pub mod EndToEnd
pub mod Queue
pub mod Slots
pub mod Worker
pub mod Threads
