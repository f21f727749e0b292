-- ===== src/Jit.antt =====
-- knox-proxy/jit: tickets for access that is granted for a time, their table, the timers that start
-- and end it, and the API.
pub mod Ticket
pub mod Numbers
pub mod Schema
pub mod Repository
pub mod Migration
pub mod Scheduler
pub mod Validate
pub mod Handler
pub mod Listing
pub mod Routes
pub mod Admin
