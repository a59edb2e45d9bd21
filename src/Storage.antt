-- ===== src/Storage.antt =====
-- app/storage.py: the durable store. A table is the list of its rows in the order of insertion; a
-- transaction takes the database and gives the database afterwards, and where it raises, what it
-- has written is rolled back: the database is the one before.
pub mod Tables
pub mod Keys
pub mod Changeset
pub mod Materialize
pub mod Publish
pub mod Transfers
pub mod Cleanup
pub mod Zones
