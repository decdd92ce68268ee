-- ===== src/Server.antt =====
-- src/websocket_server.hpp: the state of WebSocketServer and what it says to its clients. The texts
-- of replies and the log are left out. The children hold the handlers, the
-- events of the loop, and the properties.
pub mod State
pub mod Cameras
pub mod Streams
pub mod Controls
pub mod Loop
pub mod Events
pub mod Refinement
pub mod Phase
pub mod Transitions
pub mod Quiet
pub mod Callbacks
pub mod Induction
pub mod Invariant
pub mod Privilege
pub mod Wedge
pub mod Sessions
pub mod Starting
pub mod Streaming
pub mod Survival
pub mod Endurance
pub mod Answers
pub mod Replies
mod Tests
