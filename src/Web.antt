-- ===== src/Web.antt =====
-- The HTTP interface (app/web): the routers over the services, and who may call them.
pub mod Attempts
pub mod Access
pub mod Operations
pub mod Login
pub mod Host
pub mod Observability
pub mod Identity
