-- ===== src/Worker.antt =====
-- The workflow worker: boxes, time patches, person tracking, text recognition and streams.
pub mod Boxes
pub mod TimePatch
pub mod Tracking
pub mod Persons
pub mod Ocr
pub mod CircularQueue
pub mod FrameChannel
pub mod MediaStream
mod Samples
