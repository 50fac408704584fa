-- ===== src/Swiss.antt =====
-- packages/arena/src/domain/formats/swiss.mjs, the pairing of one round of a Swiss tournament.
pub mod Tests
pub mod Types
pub mod Entries
pub mod History
pub mod Participants
pub mod Matching
pub mod Seats
pub mod Round
