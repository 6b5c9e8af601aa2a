-- ===== src/Chat.antt =====
-- The live chat feed of the web application: its state (apps/web/src/hooks/use-chat-service-stream.ts)
-- and its subscription to the chat service.
pub mod Feed
pub mod Order
pub mod Subscription
mod Tests
