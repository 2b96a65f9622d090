-- ===== src/Tests.antt =====
-- A concrete server, and the theorems at concrete requests to it.
mod World
mod Rows
mod Codes
mod Refreshes
mod Issues
mod Sessions
mod Devices
mod Clients
mod Logouts
mod Endpoint
pub mod Browsers
pub mod Consents
pub mod Logins
pub mod Factors
pub mod Resets
