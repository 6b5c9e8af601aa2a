-- ===== src/Alerts.antt =====
-- The donation alert overlay of the web application: the state of its OBS source, its claim on the
-- alert stream, the acknowledgements it retries (apps/web/src/hooks/use-alert-overlay.ts), and the
-- player (apps/web/src/components/alert-player-runtime.ts).
pub mod Source
pub mod Acknowledge
pub mod Overlay
pub mod Player
mod Tests
