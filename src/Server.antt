-- ===== src/Server.antt =====
-- app/dns_server.py
pub mod Packer
pub mod Stream
pub mod Access
pub mod Transfer
pub mod Answer
pub mod Socket
pub mod Handlers
