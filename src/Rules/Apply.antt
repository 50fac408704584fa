-- ===== src/Rules/Apply.antt =====
-- `applyMove` of packages/game-core/src/rules.js.
pub mod Steps
pub mod Accepted
pub mod Played
pub mod Concluded
pub mod Kept
pub mod Legal
pub mod Listed
pub mod Handover
pub mod Standing
pub mod Strength
pub mod Total
pub mod Captures
use Prim.Native.String.{String}
use ottv.Prelude.{
  Bool, ◌&&◌, not, Option, none, some, List, [], ◌∷◌, ◌++◌, ◌-ℤ◌, abs, find?, filter, any, length,
  leb, ◌==◌, text_eq, if◌then◌else◌,
}
use ottv.Rules.Types.{
  Seat, seat_eq, other, kind_eq, Point, Piece, Clock, GameState, GameEvent, move, capture, win,
  no_moves, ok, fail, ◌>>=◌, ◌>>◌, require, require_some, require_found, Applied, missing_state,
  game_over, invalid_board, invalid_seat, not_your_turn, missing_square, off_board, not_one_step,
  no_piece, own_piece, same_kind, stronger_piece,
}
use ottv.Rules.Board.{
  Sent, inside_point, at, pieces_at, has_single_occupancy, clone_state, compare, Comparison,
}
use ottv.Rules.Moves.{is_none, stronger_enemy, has_id, all_moves, Win, detect_winner}

-- What a caller sends for `from` and `to`.
pub record RawPoint : Type 0 where
  pub raw_x : Sent
  pub raw_y : Sent

-- `!(dx > 1 || dy > 1 || (dx === 0 && dy === 0))`
unfoldable pub one_step : Point → Point → Bool
one_step f t =
    let dx = abs (t.x -ℤ f.x) in
    let dy = abs (t.y -ℤ f.y) in leb dx 1 && leb dy 1 && not (dx == 0 && dy == 0)

-- The writes to `nextMover.x` and `nextMover.y`: the first piece with the id is moved.
unfoldable pub relocate : String → Point → List Piece → List Piece
relocate id t [] = []
relocate id t (p ∷ ps) =
    let rest = relocate id t ps in
    if text_eq p.id id then record p { x = t.x; y = t.y } ∷ ps else p ∷ rest

abbrev pub other_id : String → Piece → Bool
other_id id p = not (text_eq p.id id)

-- The board after a step, and its event.
unfoldable pub play_on : GameState → Piece → List Piece → Point → Point → Applied
play_on next mover [] f t =
    ok (record next { pieces = relocate mover.id t next.pieces }, move mover.id f t ∷ [])
play_on next mover (enemy ∷ _) f t = elim (compare mover.type enemy.type) [
  | Comparison.win ↦ ok (
    record next { pieces = relocate mover.id t (filter (other_id enemy.id) next.pieces) },
    capture mover.id enemy.id enemy.type f t ∷ [],
  )
  | _ ↦ fail stronger_piece
]

unfoldable pub play : GameState → Piece → List Piece → Point → Point → Applied
play s mover occupants f t =
    let next = clone_state s in
    require_found (find? (has_id mover.id) next.pieces) >>= λ next_mover.
    play_on next next_mover occupants f t

abbrev stop_clock : Clock → Clock
stop_clock c = record c { running_seat = none }

unfoldable pub end_game : GameState → Win → GameState
end_game next w = record next {
  winner = some w.winner;
  reason = some w.reason;
  eliminated_player = w.eliminated_player;
  clock = stop_clock next.clock;
}

unfoldable pub pass_turn : GameState → Seat → GameState
pass_turn next seat = record next {
  turn = seat;
  clock = record next.clock { running_seat = some seat };
}

abbrev pub no_moves_win : Seat → Win
no_moves_win player = record { winner = player; reason = no_moves; eliminated_player = none }

abbrev win_event : Win → GameEvent
win_event w = win w.winner w.reason w.eliminated_player

-- The winner after a step of `player`: by `detectWinner`, or since the other seat cannot move.
unfoldable pub verdict : GameState → Seat → Option Win
verdict next player = elim (detect_winner next) [
  | some w ↦ some w
  | none ↦ elim (all_moves next (other player)) [ [] ↦ some (no_moves_win player) | _ ∷ _ ↦ none ]
]

-- The last part of `applyMove`, from `detectWinner` on.
unfoldable pub conclude : Seat → GameState × List GameEvent → Applied
conclude player (next, events) =
    let done = elim (verdict next player) as (λ _. GameState × List GameEvent) [
      | some w ↦ (end_game next w, events ++ win_event w ∷ [])
      | none ↦ (pass_turn next (other player), events)
    ] in
    if has_single_occupancy done.0 then ok done else fail invalid_board

-- The guards of `applyMove` on the board, once the request is well formed.
unfoldable pub step_on : GameState → Seat → Point → Point → Applied
step_on s seat f t = do
  require (one_step f t) not_one_step
  mover ← require_some (find? (λ p. seat_eq p.player seat && at f.x f.y p) s.pieces) no_piece
  let occupants = pieces_at s t.x t.y
  require (leb (length occupants) 1) invalid_board
  require (not (any (λ p. seat_eq p.player seat) occupants)) own_piece
  require (not (any (λ p. kind_eq p.type mover.type) occupants)) same_kind
  require (not (any (stronger_enemy mover) occupants)) stronger_piece
  played ← play s mover occupants f t
  conclude seat played

unfoldable pub apply_move :
    Option GameState → Option Seat → Option RawPoint → Option RawPoint → Applied
apply_move none player from to = fail missing_state
apply_move (some s) player from to = do
  require (is_none s.winner) game_over
  require (has_single_occupancy s) invalid_board
  seat ← require_some player invalid_seat
  require (seat_eq s.turn seat) not_your_turn
  from' ← require_some from missing_square
  to' ← require_some to missing_square
  f ← require_some (inside_point from'.raw_x from'.raw_y) off_board
  t ← require_some (inside_point to'.raw_x to'.raw_y) off_board
  step_on s seat f t
