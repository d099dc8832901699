-- ===== src/Tests.antt =====
-- Runs on the sample database, and instances of the theorems there.
mod Packets
mod Limits
mod Listeners
mod Accounts
mod Runs
mod Secrets
mod HostAgent
mod Fortigate
mod Settings
mod Events
mod Routes
mod Doors
