-- ===== src/Rules/Apply/Accepted.antt =====
-- What an accepted call of `applyMove` has passed.
use ottv.Prelude.{
  ◌≡◌, refl, Bool, true, false, ◌&&◌, not, Option, none, some, List, arith, find?, any, length, leb,
}
use ottv.Rules.Types.{
  Seat, seat_eq, kind_eq, Point, Piece, GameState, GameEvent, Result, ok, fail, throws, ◌>>=◌, ◌>>◌,
  require, require_some, RuleError,
}
use ottv.Rules.Board.{inside_point, at, pieces_at, has_single_occupancy}
use ottv.Rules.Moves.{is_none, stronger_enemy}
use ottv.Rules.Apply.{RawPoint, one_step, play, conclude, step_on, apply_move}

pub >>=-eq-ok {ℓ κ} :
    {A : Type ℓ} {B : Type κ} (m : Result A) (f : A → Result B) {b : B}
    → (m >>= f) ≡ ok b
    → (x : A) × (m ≡ ok x) × (f x ≡ ok b)
>>=-eq-ok (ok x) f h = (x, refl, h)
>>=-eq-ok (fail e) f h = absurd (cc)
>>=-eq-ok throws f h = absurd (cc)

require-eq-ok {ℓ} :
    {B : Type ℓ} (c : Bool) (e : RuleError) (k : Result B) {b : B}
    → (require c e >> k) ≡ ok b
    → (c ≡ true) × (k ≡ ok b)
require-eq-ok true e k h = (refl, h)
require-eq-ok false e k h = absurd (cc)

require_some-eq-ok {ℓ κ} :
    {A : Type ℓ} {B : Type κ} (o : Option A) (e : RuleError) (k : A → Result B) {b : B}
    → (require_some o e >>= k) ≡ ok b
    → (x : A) × (o ≡ some x) × (k x ≡ ok b)
require_some-eq-ok (some x) e k h = (x, refl, h)
require_some-eq-ok none e k h = absurd (cc)

abbrev pub mover_at : GameState → Seat → Point → Option Piece
mover_at s seat f = find? (λ p. seat_eq p.player seat && at f.x f.y p) s.pieces

abbrev pub Applying : Type 0
Applying = GameState × List GameEvent

-- The guards on the board, and the state before and after `detectWinner`.
pub record Stepped (s : GameState) (seat : Seat) (f t : Point) (r : Applying) : Type 0 where
  pub near : one_step f t ≡ true
  pub mover : Piece
  pub found : mover_at s seat f ≡ some mover
  pub few : leb (length (pieces_at s t.x t.y)) 1 ≡ true
  pub no_own : any (λ p. seat_eq p.player seat) (pieces_at s t.x t.y) ≡ false
  pub no_same : any (λ p. kind_eq p.type mover.type) (pieces_at s t.x t.y) ≡ false
  pub no_stronger : any (stronger_enemy mover) (pieces_at s t.x t.y) ≡ false
  pub played : Applying
  pub play_eq : play s mover (pieces_at s t.x t.y) f t ≡ ok played
  pub concluded : conclude seat played ≡ ok r

not-true : (b : Bool) → not b ≡ true → b ≡ false
not-true b h = ground arith

pub step_on-Stepped :
    (s : GameState) (seat : Seat) (f t : Point) {r : Applying}
    → step_on s seat f t ≡ ok r
    → Stepped s seat f t r
unfolding step_on
step_on-Stepped s seat f t h =
    let (near, h₁) = require-eq-ok _ _ _ h in
    let (mover, found, h₂) = require_some-eq-ok _ _ _ h₁ in
    let (few, h₃) = require-eq-ok _ _ _ h₂ in
    let (no_own, h₄) = require-eq-ok _ _ _ h₃ in
    let (no_same, h₅) = require-eq-ok _ _ _ h₄ in
    let (no_stronger, h₆) = require-eq-ok _ _ _ h₅ in
    let (played, play_eq, concluded) = >>=-eq-ok _ _ h₆ in
    record {
      near = near;
      mover = mover;
      found = found;
      few = few;
      no_own = not-true _ no_own;
      no_same = not-true _ no_same;
      no_stronger = not-true _ no_stronger;
      played = played;
      play_eq = play_eq;
      concluded = concluded;
    }

-- The guards of the request.
pub record Accepted (s : GameState) (player : Option Seat) (from to : Option RawPoint)
    (r : Applying) : Type 0 where
  pub open_game : is_none s.winner ≡ true
  pub single : has_single_occupancy s ≡ true
  pub seat : Seat
  pub seat_given : player ≡ some seat
  pub on_turn : seat_eq s.turn seat ≡ true
  pub f : Point
  pub t : Point
  pub raw_from : RawPoint
  pub raw_to : RawPoint
  pub from_given : from ≡ some raw_from
  pub to_given : to ≡ some raw_to
  pub from_inside : inside_point raw_from.raw_x raw_from.raw_y ≡ some f
  pub to_inside : inside_point raw_to.raw_x raw_to.raw_y ≡ some t
  pub stepped : Stepped s seat f t r

pub apply_move-Accepted :
    (s : GameState) (player : Option Seat) (from to : Option RawPoint) {r : Applying}
    → apply_move (some s) player from to ≡ ok r
    → Accepted s player from to r
unfolding apply_move
apply_move-Accepted s player from to h =
    let (open_game, h₁) = require-eq-ok _ _ _ h in
    let (single, h₂) = require-eq-ok _ _ _ h₁ in
    let (seat, seat_given, h₃) = require_some-eq-ok _ _ _ h₂ in
    let (on_turn, h₄) = require-eq-ok _ _ _ h₃ in
    let (raw_from, from_given, h₅) = require_some-eq-ok _ _ _ h₄ in
    let (raw_to, to_given, h₆) = require_some-eq-ok _ _ _ h₅ in
    let (f, from_inside, h₇) = require_some-eq-ok _ _ _ h₆ in
    let (t, to_inside, h₈) = require_some-eq-ok _ _ _ h₇ in
    record {
      open_game = open_game;
      single = single;
      seat = seat;
      seat_given = seat_given;
      on_turn = on_turn;
      f = f;
      t = t;
      raw_from = raw_from;
      raw_to = raw_to;
      from_given = from_given;
      to_given = to_given;
      from_inside = from_inside;
      to_inside = to_inside;
      stepped = step_on-Stepped s seat f t h₈;
    }
