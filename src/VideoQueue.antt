-- ===== src/VideoQueue.antt =====
-- The video queues (apps/web/src/server/video-queue/postgres.ts, apps/web/src/server/pagination.ts
-- and packages/src/currency.ts).
pub mod Queues
pub mod Tables
pub mod Videos
pub mod Priorities
pub mod Owned
pub mod Pages
pub mod Requests
pub mod Listing
pub mod Shared
pub mod Users
pub mod OwnerPage
pub mod Procedures
pub mod Views
pub mod Donations
mod Tests
