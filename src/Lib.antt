-- ===== src/Lib.antt =====
-- A model of the game core of OTTv2, hammer, leaf and scissors on a board of nine by nine, played in
-- rooms of two, and of the tournaments of its bots.
--
-- The parts and how they interact. packages/game-core/src/rules.js is a library of pure functions on a
-- game state: it lists the moves of a piece and of a seat, applies a move, decides the winner and lets
-- time run off a clock. packages/game-core/src/config.js holds the constants that it reads. A room
-- (packages/game-core/src/room.js) keeps two players, one game state, its revisions and its timers; the
-- server calls it when a connection joins, moves, drops, comes back or leaves, and its timers call it when
-- a clock or a period of grace runs out. It asks the rules to apply moves and to let time elapse, and
-- packages/game-core/src/names.js to clean the names of players. The computer player
-- (packages/game-core/src/ai.js) searches on a position of its own, on which it lists and counts moves,
-- makes them and takes them back.
--
-- packages/arena/src/domain/formats/swiss.mjs pairs the bots of a tournament for one round from the
-- entries, the standings and the matches so far: it reads the entries, gathers who has met whom and on
-- which seats, gives a bye to one bot of an odd number, pairs the others without a rematch by a bounded
-- search or, when that fails, greedily, and gives each pair its seats.
--
-- packages/arena/src/domain/round-robin.mjs makes the schedule of two legs in which all bots meet, and
-- packages/arena/src/domain/match-policy.mjs checks the policy that a match is played by.
--
-- The bot cup (packages/bot-cup-core/src) seals a submission of each team, lets it through a gate of six
-- games, ranks the teams by a round robin or by Swiss rounds, for which it calls the pairing above, and
-- plays a knockout among the best.
--
-- The files:
--   Prelude, Prelude/*       truth values, tests on numbers, whole numbers, lists and searches in them
--   Names                    names.js: cleanDisplayName is clean_display_name
--   Rules/Types, Rules/Board the data of rules.js and config.js, createInitialState, piecesAt,
--                            hasSingleOccupancy, compare, inside, cloneState
--   Rules/Moves              getLegalMoves, allMoves, detectWinner
--   Rules/Apply              applyMove: its guards are apply_move and step_on, the capture and the step
--                            play, and the end of the turn conclude
--   Rules/Time               elapseClock
--   Rules/Play               the states that a game comes to
--   Room/Types, Room/Clock   the state and constructor of class Room, commitStateChange, settleClock and
--                            the deadline of the clock
--   Room/Seats               addPlayer, reconcileHydration, expireWaitingCreator, disconnectPlayer,
--                            leavePlayer, resumePlayer, expireReconnect
--   Room/Move                handleMove
--   Ai                       makeMove and unmakeMove of ai.js on the position of the search
--   Ai/Moves                 buildPosition, generateMoves and countMoves of ai.js
--   Room/History             the calls of a room in any order
--   Swiss/Types              the data of the Swiss pairing
--   Swiss/Entries            normalizeSwissEntries; its loop is read_entries
--   Swiss/History            makePairKey and analyzeHistory, whose maps are read at one key
--   Swiss/Participants       assembleParticipants, selectFairBye and sortPoolDescending
--   Swiss/Matching           findRematchFreeMatching and greedyFallbackMatching
--   Swiss/Seats, Swiss/Round allocateSeats and pairSwissRound
--   RoundRobin               round-robin.mjs, and roundRobinPairings of the bot cup
--   Policy                   validateMatchPolicy of match-policy.mjs
--   BotCup/Gate              gateGames, gateVerdict, chooseFormat, pairingGames, swissMap, appealAllowed
--   BotCup/Score             pairingScore
--   BotCup/Table             headToHead, baseTable, sonnebornBerger, rank and the two standings
--   BotCup/Swiss             pairSwiss
--   BotCup/Bracket           knockoutFirstRound, knockoutDecision, drawTiebreakMap, nextKnockoutPairings
--   BotCup/Interviews        topFourAfterInterviews
--   BotCup/Jobs              jobs.mjs of the bot cup
--   BotCup/Submission        submission.mjs of the bot cup, and sealedSubmission
-- The other files below these hold the proofs about them, and the files named Tests the runs on concrete
-- games and rooms.
--
-- The model. A coordinate or a revision that a caller sends is a whole number or some other value; a
-- square that is missing is none. A result is a value, a refusal with the reason that stands for the
-- message of the source, or throws, where the source would read a property of undefined. A state of the
-- game always has its list of pieces: a state without one, which piecesAt and hasSingleOccupancy take as
-- an empty board and in which applyMove reads a property of undefined, is not modelled. A clock holds its
-- milliseconds as a natural number, and the source's floor and bounds at 0 are subtraction that stops
-- at 0. The state of a room is passed along; where the source changes an object in place, the new room is
-- returned with the reply. The time and the random tokens are arguments of each call, and handleMove,
-- which reads the time twice, takes two. A timer is the delay that it was set with. A text is the list of
-- its UTF-16 units, and cleanDisplayName is the regular expressions written out as recursions on it.
-- The games and rooms are structural recursion on lists, so that no fuel is needed there.
--
-- In the Swiss pairing an identifier is a text and the order that localeCompare gives is a parameter, of
-- which no law is used. Points, wins and counts are natural numbers, so that points that come in halves
-- are counted in halves, and an identifier that a match of the history lacks is the empty text. A stable
-- sort by a comparison is insertion sort, and a map that is filled in a loop is the fold of the loop at
-- one key. The search for a matching takes as fuel the number of participants, which each step lowers by
-- two, beside its own limit of 5000 steps; so does the greedy loop. An error is a value with the numbers
-- that stand in its message.
--
-- The circle of the round robin is a list of places, each a bot or the bye; a field of a policy is a
-- number, another value or missing, and an error of it is its code and field.
--
-- In the bot cup points are counted in halves, a map that a loop fills is read at one team, the arithmetic
-- of doubles in the Sonneborn-Berger score is a parameter of which no law is used, and so are the lower
-- case of a text and the decoding of UTF-8. Where nextKnockoutPairings would read a result that is not
-- there, the model gives none. The log of a smoke test is the list of the games with a fault.
--
-- Not modelled: parseSquare and formatSquare (they convert strings), what a room sends to its connections,
-- the rest of the computer player (packages/game-core/src/ai.js: its score and its search); of the bot
-- cup, swissRoundCount (a logarithm of doubles), normalizeSource, the replays and the fingerprints; the
-- rest of the arena (packages/arena, packages/arena-node), the servers and the user interface under apps,
-- and the vendored library.
pub mod Prelude
pub mod Names
pub mod Rules
pub mod Room
pub mod Ai
pub mod Swiss
pub mod BotCup
pub mod Policy
pub mod RoundRobin
