-- ===== src/Rules.antt =====
-- packages/game-core/src/rules.js, the rules of the game.
pub mod Types
pub mod Board
pub mod Moves
pub mod Apply
pub mod Time
mod Tests
pub mod Play
