-- ===== src/Http.antt =====
-- Streams and requests: lines read from a stream (apps/web/src/lib/ndjson.ts), bodies with a bound
-- (apps/web/src/server/request-body.ts), and the handlers that rest on them
-- (apps/web/src/server/restream/http.ts, apps/web/src/server/donation-alert/http.ts).
pub mod Ndjson
pub mod Body
pub mod Requests
pub mod Media
pub mod Uploads
pub mod AlertMedia
mod Tests
