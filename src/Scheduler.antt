-- ===== src/Scheduler.antt =====
-- src/buildstream/_scheduler: resources, queues, jobs and the scheduler.
pub mod Resources
pub mod Queues
pub mod Jobs
pub mod Loop
pub mod Classes
