-- ===== src/Rules/Apply/Handover.antt =====
-- After an accepted move the game is over for a reason on the board, or the other seat can move.
use Prim.Native.String.{String}
use mathlib.Core.Path.{subst}
use ottv.Prelude.{
  ◌≡◌, refl, sym, ap, ◌∙◌, true, false, Option, none, some, List, [], ◌∷◌, arith, All, any, inl,
  inr, ◌⊎◌, Option-cases,
}
use ottv.Rules.Types.{
  Seat, other, Point, Piece, Clock, GameState, GameEvent, Reason, goal, elimination, no_moves,
  is_ok, ok,
}
use ottv.Rules.Board.{pieces_at, has_single_occupancy}
use ottv.Rules.Board.Occupancy.{IsBoard}
use ottv.Rules.Moves.{
  LegalMove, deltas, open_to, moves_from, moves_of_found, get_legal_moves, moves_of_player,
  all_moves, is_none, Win, at_goal, of_seat, detect_winner,
}
use ottv.Rules.Apply.{RawPoint, end_game, pass_turn, verdict, no_moves_win, apply_move}
use ottv.Rules.Apply.Accepted.{Applying, Accepted, apply_move-Accepted}
use ottv.Rules.Apply.Played.{Effect, to_empty, to_enemy}
use ottv.Rules.Apply.Concluded.{ended, continued, Outcome-pieces}
use ottv.Rules.Apply.Kept.{Accepted-Effect, Accepted-Outcome, apply_move-IsBoard}
use ottv.Rules.Apply.Legal.{raw_point, seat_eq-eq}
use ottv.Rules.Apply.Listed.{Sound, all_moves-Sound}

is_none-eq {ℓ} : {A : Type ℓ} (o : Option A) → is_none o ≡ true → o ≡ none
is_none-eq o h = ground arith

-- The moves depend on the pieces and the winner alone.
module _ (s : GameState) (seat : Seat) (c : Clock) where
  abbrev retimed : GameState
  retimed = record s { turn = seat; clock = c }

  moves_from-retimed : (m : Piece) (ds : List Point) → moves_from retimed m ds ≡ moves_from s m ds
  unfolding moves_from open_to pieces_at
  moves_from-retimed m [] = refl
  moves_from-retimed m (d ∷ ds) = rw (moves_from-retimed m ds)

  moves_of_found-retimed : (o : Option Piece) → moves_of_found retimed o ≡ moves_of_found s o
  moves_of_found-retimed none = refl
  moves_of_found-retimed (some m) = moves_from-retimed m deltas

  get_legal_moves-retimed : (id : String) → get_legal_moves retimed id ≡ get_legal_moves s id
  unfolding get_legal_moves has_single_occupancy
  get_legal_moves-retimed id = rw moves_of_found-retimed

  moves_of_player-retimed :
      (player : Seat) (ps : List Piece)
      → moves_of_player retimed player ps ≡ moves_of_player s player ps
  unfolding moves_of_player
  moves_of_player-retimed player [] = refl
  moves_of_player-retimed player (p ∷ ps) =
      rw (get_legal_moves-retimed p.id, moves_of_player-retimed player ps)

  pub all_moves-retimed : (player : Seat) → all_moves retimed player ≡ all_moves s player
  unfolding all_moves
  all_moves-retimed player = rw (moves_of_player-retimed player s.pieces)

-- What `detectWinner` has found.
detect_winner-some :
    (s : GameState) (w : Win)
    → detect_winner s ≡ some w
    → ((w.reason ≡ goal) × (w.eliminated_player ≡ none) × (any (at_goal w.winner) s.pieces ≡ true))
      ⊎ ((w.reason ≡ elimination)
          × (w.eliminated_player ≡ some (other w.winner))
          × (any (of_seat (other w.winner)) s.pieces ≡ false))
unfolding detect_winner
detect_winner-some s w h = ground arith

-- The reasons for which a move of `player` ends the game for `w`.
pub data Cause (board : GameState) (player w : Seat) (reason : Option Reason) (gone : Option Seat)
    : Type 0 where
  by_goal :
      reason ≡ some goal
      → gone ≡ none
      → any (at_goal w) board.pieces ≡ true
      → Cause board player w reason gone
  by_elimination :
      reason ≡ some elimination
      → gone ≡ some (other w)
      → any (of_seat (other w)) board.pieces ≡ false
      → Cause board player w reason gone
  by_no_moves :
      reason ≡ some no_moves
      → gone ≡ none
      → w ≡ player
      → detect_winner board ≡ none
      → all_moves board (other player) ≡ []
      → Cause board player w reason gone

detected-Cause :
    (next : GameState) (player : Seat) (w : Win)
    → detect_winner next ≡ some w
    → Cause next player w.winner (some w.reason) w.eliminated_player
detected-Cause next player w e = elim (detect_winner-some next w e) [
  | inl (r, g, a) ↦ by_goal (ap some r) g a
  | inr (r, g, a) ↦ by_elimination (ap some r) g a
]

List-cases {ℓ} : {A : Type ℓ} (l : List A) → (l ≡ []) ⊎ ((x : A) × (r : List A) × (l ≡ x ∷ r))
List-cases [] = inl refl
List-cases (x ∷ r) = inr (x, r, refl)

verdict-Cause :
    (next : GameState) (player : Seat) (w : Win)
    → verdict next player ≡ some w
    → Cause next player w.winner (some w.reason) w.eliminated_player
unfolding verdict
verdict-Cause next player w h = elim (Option-cases (detect_winner next)) [
  | inl e ↦ elim (List-cases (all_moves next (other player))) [
    | inl stuck ↦
        let h' : some (no_moves_win player) ≡ some w = rw (e, stuck, verdict) at h in
        let same : no_moves_win player ≡ w = cc in
        subst (λ (v : Win). Cause next player v.winner (some v.reason) v.eliminated_player) same
          (by_no_moves refl refl refl e stuck)
    | inr (m, r, free) ↦ absurd (cc (rw (e, free, verdict) at h))
  ]
  | inr (w', e) ↦
      let h' : some w' ≡ some w = rw (e, verdict) at h in detected-Cause next player w (cc)
]

verdict-none :
    (next : GameState) (player : Seat)
    → verdict next player ≡ none
    → (m : LegalMove) × (r : List LegalMove) × (all_moves next (other player) ≡ m ∷ r)
unfolding verdict
verdict-none next player h = elim (Option-cases (detect_winner next)) [
  | inl e ↦ elim (List-cases (all_moves next (other player))) [
    | inl stuck ↦ absurd (cc (rw (e, stuck, verdict) at h))
    | inr (m, r, free) ↦ (m, r, free)
  ]
  | inr (w, e) ↦ absurd (cc (rw (e, verdict) at h))
]

-- A step changes the pieces alone.
Effect-same :
    (s : GameState) (mover : Piece) (f t : Point) (played : Applying)
    → Effect s mover f t played
    → played.0 ≡ record s { pieces = played.0.pieces }
Effect-same s mover f t played (to_empty o e) = ground arith
Effect-same s mover f t played (to_enemy x o w e) = ground arith

-- The game goes on: the other seat is on turn, its clock runs, and it has a move that is accepted.
pub record GoesOn (s : GameState) (r : Applying) : Type 0 where
  pub turn_passed : r.0.turn ≡ other s.turn
  pub clock_runs : r.0.clock.running_seat ≡ some (other s.turn)
  pub reply : LegalMove
  pub reply_accepted :
      is_ok (
        apply_move
          (some r.0)
          (some r.0.turn)
          (some (raw_point reply.from))
          (some (raw_point reply.to)))
      ≡ true

-- The game is over: the clock stands, the turn is kept, and the board shows the reason.
pub record Over (s : GameState) (r : Applying) (w : Seat) : Type 0 where
  pub clock_stands : r.0.clock.running_seat ≡ none
  pub turn_kept : r.0.turn ≡ s.turn
  pub cause : Cause (record s { pieces = r.0.pieces }) s.turn w r.0.reason r.0.eliminated_player

module _ (s next : GameState) (events : List GameEvent) (running : s.winner ≡ none)
    (same : next ≡ record s { pieces = next.pieces }) where
  ended-Over : (w : Win) → verdict next s.turn ≡ some w → Over s (end_game next w, events) w.winner
  unfolding end_game
  ended-Over w h = record {
    clock_stands = refl;
    turn_kept = ap (λ (g : GameState). g.turn) same;
    cause =
        subst (λ (g : GameState). Cause g s.turn w.winner (some w.reason) w.eliminated_player) same
          (verdict-Cause next s.turn w h);
  }

  continued-GoesOn :
      IsBoard next.pieces
      → verdict next s.turn ≡ none
      → GoesOn s (pass_turn next (other s.turn), events)
  unfolding pass_turn
  continued-GoesOn v h =
      let (m, rest, free) = verdict-none next s.turn h in
      let seat = other s.turn in
      let clock : Clock = record next.clock { running_seat = some seat } in
      let after = retimed next seat clock in
      let open_game : next.winner ≡ none = ap (λ (g : GameState). g.winner) same ∙ running in
      let listed : all_moves after seat ≡ m ∷ rest =
        all_moves-retimed next seat clock seat ∙ free in
      record {
        turn_passed = refl;
        clock_runs = refl;
        reply = m;
        reply_accepted = (subst (All (Sound after)) listed (all_moves-Sound after v open_game)).0;
      }

-- After an accepted move from a board, either no winner is set, the turn and the running clock pass
-- to the other seat, and some reply of it is accepted, or a winner is set, the clock stands, the turn
-- stays, and the board shows the reason: a piece on the goal, a seat with no pieces, or a seat with
-- no move.
pub apply_move-Outcome :
    (s : GameState) (player : Option Seat) (from to : Option RawPoint) (r : Applying)
    → IsBoard s.pieces
    → apply_move (some s) player from to ≡ ok r
    → ((r.0.winner ≡ none) × GoesOn s r) ⊎ ((w : Seat) × (r.0.winner ≡ some w) × Over s r w)
unfolding end_game pass_turn
apply_move-Outcome s player from to r v h = elim (Accepted-Outcome a) [
  | ended w d e ↦ inr (
    w.winner,
    ap (λ (q : Applying). q.0.winner) e,
    subst (λ (q : Applying). Over s q w.winner) (sym e)
        (ended-Over s next _ running same w (rw on_turn at d)),
  )
  | continued d e ↦ inl (
    ap (λ (q : Applying). q.0.winner) e ∙ ap (λ (g : GameState). g.winner) same ∙ running,
    subst (GoesOn s) (sym e) (
        subst (λ (seat : Seat). GoesOn s (pass_turn next (other seat), a.stepped.played.1))
          (sym on_turn) (continued-GoesOn s next _ running same board (rw on_turn at d))),
  )
]
  where
    a : Accepted s player from to r
    a = apply_move-Accepted s player from to h

    next : GameState
    next = a.stepped.played.0

    on_turn : a.seat ≡ s.turn
    on_turn = sym (seat_eq-eq s.turn a.seat a.on_turn)

    running : s.winner ≡ none
    running = is_none-eq s.winner a.open_game

    same : next ≡ record s { pieces = next.pieces }
    same = Effect-same s _ _ _ _ (Accepted-Effect v a)

    board : IsBoard next.pieces
    board =
        subst IsBoard (Outcome-pieces _ _ _ _ (Accepted-Outcome a))
          (apply_move-IsBoard s player from to r v h)
