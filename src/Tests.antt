-- ===== src/Tests.antt =====
-- Concrete parts of the outside world, and the theorems at concrete inputs.
mod Fixtures
mod Messages
mod Sockets
mod Accounts
mod Sessions
mod Peers
mod Screens
mod Devices
mod Runs
mod Logins
mod Meetings
