-- ===== src/Wire.antt =====
-- app/dnswire.py
pub mod Bytes
pub mod Names
pub mod Tsig
pub mod Query
pub mod Mac
pub mod Response
pub mod Rdata
