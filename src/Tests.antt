-- ===== src/Tests.antt =====
-- The theorems at concrete inputs, for each part of the program.
mod Sessions
mod Policies
mod Proxies
mod Tickets
mod Logins
mod Servers
mod Startup
mod Timers
mod Requests
mod Suite
