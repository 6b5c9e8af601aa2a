-- ===== src/Timing.antt =====
-- Video times (packages/src/video-timing.ts): seconds as a text, `1:02:03` or `2:03`, and back.
pub mod Format
pub mod Parse
pub mod RoundTrip
pub mod Rounding
mod Tests
