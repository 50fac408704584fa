-- ===== src/Room.antt =====
-- packages/game-core/src/room.js, the room of two players.
pub mod Types
pub mod Clock
pub mod Seats
pub mod Move
pub mod Valid
pub mod History
pub mod Final
pub mod Retry
pub mod Grace
pub mod Late
pub mod Overdue
mod Tests
