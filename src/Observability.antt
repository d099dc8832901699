-- ===== src/Observability.antt =====
-- Settings and retention (app/application/observability_service.py).
pub mod Settings
pub mod Retention
pub mod Range
pub mod Events
pub mod Audit
pub mod Dashboard
pub mod Export
