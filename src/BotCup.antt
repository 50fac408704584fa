-- ===== src/BotCup.antt =====
-- packages/bot-cup-core/src, the rules of the bot cup: the qualifying games, the tables, the knockout
-- bracket, the submissions and the jobs of the runner.
pub mod Tests
pub mod Gate
pub mod Score
pub mod Table
pub mod Bracket
pub mod Interviews
pub mod Jobs
pub mod Submission
pub mod Swiss
