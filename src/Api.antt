-- ===== src/Api.antt =====
-- app/api.py: the HTTP interface.
pub mod Request
pub mod Response
pub mod Fingerprint
pub mod Routes
