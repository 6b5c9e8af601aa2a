-- ===== src/Restream.antt =====
-- The restream subsystem (apps/web/src/server/restream): a user's destinations, the ingest key,
-- and the sessions of the media node, over the tables of db/schema.sql.
pub mod Tables
pub mod Destinations
pub mod Sessions
pub mod Credentials
pub mod Target
pub mod Procedures
mod Tests
