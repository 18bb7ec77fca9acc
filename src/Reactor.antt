-- ===== src/Reactor.antt =====
-- `IoReactor` of py_kvcache/reactor.py.
pub mod State
pub mod Demand
pub mod Places
pub mod Jobs
pub mod Complete
pub mod Schedule
pub mod Preload
pub mod Intake
pub mod Run
pub mod Ends
pub mod Progress
pub mod Once
pub mod Pending
pub mod Placed
