-- ===== src/Controller.antt =====
-- The channel controller and its policies (include/hbmsim/controller and src/controller).
pub mod Access
pub mod Banks
pub mod Commands
pub mod Drive
pub mod Issue
pub mod Planner
pub mod Policies
pub mod Refresh
pub mod Reservations
pub mod Scheduler
pub mod Selection
pub mod State
pub mod Wakeups
pub mod Transfers
pub mod WriteDrain
