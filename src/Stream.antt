-- ===== src/Stream.antt =====
-- src/stream_manager.hpp and src/stream_manager.cpp: one client's streaming session. The children
-- hold the wire format, the chunks of a frame, the sending of a frame, the session's state and the
-- loop that picks the frames.
pub mod Wire
pub mod Chunks
pub mod Block
pub mod Header
pub mod Send
pub mod Delivery
pub mod Finishing
pub mod Session
pub mod Visit
pub mod Loop
pub mod Fairness
pub mod RoundRobin
pub mod Reach
pub mod Freshness
pub mod Subscriptions
pub mod Cursors
pub mod HeaderOnly
mod Tests
