-- ===== src/Examples.antt =====
-- Tests by evaluation, and the theorems at concrete inputs.
mod Banks
mod Devices
mod Closing
mod Driving
mod Events
mod Queues
mod Splitting
mod Submitting
mod Systems
mod Timings
mod Commands
