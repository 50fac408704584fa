-- ===== src/Room/Valid.antt =====
-- The invariant of a room, and the parts of its operations that keep it.
use mathlib.Core.Path.{subst}
use ottv.Prelude.{
  ℕ, ◌≤◌, ◌-◌, ◌≡◌, refl, sym, ap, ◌∙◌, Bool, true, false, Option, none, some, List, [], ◌∷◌, arith,
  inl, inr, ◌==◌, Bool-cases,
}
use ottv.Rules.Types.{Seat, seat_a, seat_b, GameState, GameEvent}
use ottv.Rules.Board.Occupancy.{IsBoard}
use ottv.Rules.Time.{elapse_for}
use ottv.Rules.Time.Elapsed.{elapse_clock-eq}
use ottv.Rules.Play.{elapse_for-cases}
use ottv.Room.Types.{
  Room, Player, Status, done, is_playing, is_done, is_some, connected, commit_state_change,
}
use ottv.Room.Clock.{
  running_seat, deadline, finish_terminal, schedule_clock_deadline, clock_stopped, advance,
  settle_uncommitted, settle_clock,
}

abbrev pub pick : Option Player → Option Player → Seat → Option Player
pick a b seat_a = a
pick a b seat_b = b

-- The invariant, over the parts of a room that it speaks of.
pub record IsSound (g : GameState) (status : Status) (a b : Option Player) (timer : Option ℕ)
    : Type 0 where
  pub board : IsBoard g.pieces
  pub seated : is_playing status ≡ true → (is_some a ≡ true) × (is_some b ≡ true)
  pub open_game : is_playing status ≡ true → g.winner ≡ none
  pub fair_clock :
      is_playing status ≡ true
      → (s : Seat) → g.clock.running_seat ≡ some s
      → (s ≡ g.turn) × (connected (pick a b s) ≡ true)
  pub over_clock : is_done status ≡ true → g.clock.running_seat ≡ none
  pub no_timer : is_playing status ≡ false → timer ≡ none

-- While a room plays, both seats are taken, there is no winner, and a clock that runs is that of the
-- seat on turn, which is connected; a finished room has no running clock, and only a playing room
-- has a timer; the pieces are a board; the structural revision is not ahead.
pub record IsRoom (r : Room) : Type 0 where
  pub sound : IsSound r.state r.status r.player_a r.player_b r.clock_timer
  pub ordered : r.structural_revision ≤ r.revision

pub commit-IsRoom :
    (r : Room) (events : List GameEvent) (structural : Bool)
    → IsRoom r
    → IsRoom (commit_state_change r events structural).0
unfolding commit_state_change
commit-IsRoom r [] structural v = record { sound = v.sound; ordered = ground arith }
commit-IsRoom r (e ∷ es) structural v = record { sound = v.sound; ordered = ground arith }

pub finished-IsSound :
    (g : GameState) (a b : Option Player) (timer : Option ℕ)
    → IsBoard g.pieces
    → g.clock.running_seat ≡ none
    → timer ≡ none
    → IsSound g done a b timer
finished-IsSound g a b timer v stands off = record {
  board = v;
  seated = λ h. absurd (cc);
  open_game = λ h. absurd (cc);
  fair_clock = λ h s e. absurd (cc);
  over_clock = λ _. stands;
  no_timer = λ _. off;
}

-- A finished room is valid whatever the game was.
pub finish_terminal-IsRoom :
    (r : Room)
    → IsBoard r.state.pieces
    → r.structural_revision ≤ r.revision
    → IsRoom (finish_terminal r)
unfolding finish_terminal
finish_terminal-IsRoom r b o = record {
  sound = finished-IsSound _ _ _ none b refl refl;
  ordered = o;
}

pub schedule-IsRoom : (r : Room) → IsRoom r → IsRoom (schedule_clock_deadline r)
unfolding schedule_clock_deadline
schedule-IsRoom r v =
    let s = v.sound in
    record {
      sound = record {
        board = s.board;
        seated = s.seated;
        open_game = s.open_game;
        fair_clock = s.fair_clock;
        over_clock = s.over_clock;
        no_timer = λ h. not_playing r h;
      };
      ordered = v.ordered;
    }
  where
    not_playing : (q : Room) → is_playing q.status ≡ false → deadline q (running_seat q) ≡ none
    not_playing q h = ground arith

-- A room whose clock is stopped.
pub stopped-IsSound :
    (g : GameState) (status : Status) (a b : Option Player) (timer : Option ℕ)
    → IsSound g status a b timer
    → (a' b' : Option Player) → is_some a' ≡ is_some a
    → is_some b' ≡ is_some b
    → IsSound (record g { clock = record g.clock { running_seat = none } }) status a' b' none
stopped-IsSound g status a b timer v a' b' ea eb = record {
  board = v.board;
  seated = λ h. (ea ∙ (v.seated h).0, eb ∙ (v.seated h).1);
  open_game = v.open_game;
  fair_clock = λ h s e. absurd (cc);
  over_clock = λ _. refl;
  no_timer = λ _. refl;
}

-- Time that leaves the game open, or whose winner ends it.
elapsed-IsSound :
    (g u : GameState) (status : Status) (a b : Option Player) (timer : Option ℕ)
    → IsSound g status a b timer
    → (u ≡ record g { clock = u.clock }) × (u.clock.running_seat ≡ g.clock.running_seat)
    → IsSound u status a b timer
elapsed-IsSound g u status a b timer v (same, running) =
    subst (λ (w : GameState). IsSound w status a b timer) (sym same)
      (record {
        board = v.board;
        seated = v.seated;
        open_game = v.open_game;
        fair_clock = λ h s e. v.fair_clock h s (sym running ∙ e);
        over_clock = λ h. running ∙ v.over_clock h;
        no_timer = v.no_timer;
      })

pub advance-IsRoom : (r : Room) (elapsed now : ℕ) → IsRoom r → IsRoom (advance r elapsed now).0
unfolding advance
advance-IsRoom r elapsed now v =
    rw (elapse_clock-eq r.state elapsed, advance)
      (elim (elapse_for-cases r.state elapsed) [
        | inl (same, running) ↦ elim (Bool-cases (is_some u.winner)) [
          | inl e ↦ rw e (
              finish_terminal-IsRoom _
                (subst IsBoard (sym (ap (λ (g : GameState). g.pieces) same)) v.sound.board)
                v.ordered)
          | inr e ↦ rw e (record {
            sound = elapsed-IsSound r.state u _ _ _ _ v.sound (same, running);
            ordered = v.ordered;
          })
        ]
        | inr (ended, stands, pieces) ↦
            let won : is_some u.winner ≡ true = ground arith in
            rw won (finish_terminal-IsRoom _ (subst IsBoard (sym pieces) v.sound.board) v.ordered)
      ])
  where
    u : GameState
    u = (elapse_for r.state r.state.winner r.state.clock.running_seat elapsed).0

pub settle_uncommitted-IsRoom :
    (r : Room) (now : ℕ) → IsRoom r → IsRoom (settle_uncommitted r now).0
unfolding settle_uncommitted
settle_uncommitted-IsRoom r now v = elim (Bool-cases (clock_stopped r)) [
  | inl e ↦ rw e (record { sound = v.sound; ordered = v.ordered })
  | inr e ↦ rw e (elim (Bool-cases (now - r.clock_anchor_ms == 0)) [
    | inl z ↦ rw z v
    | inr n ↦ rw n (advance-IsRoom r (now - r.clock_anchor_ms) now v)
  ])
]

pub settle_clock-IsRoom : (r : Room) (now : ℕ) → IsRoom r → IsRoom (settle_clock r now).0
unfolding settle_clock
settle_clock-IsRoom r now v = elim (Bool-cases (clock_stopped r)) [
  | inl e ↦ rw e (record { sound = v.sound; ordered = v.ordered })
  | inr e ↦ rw e (elim (Bool-cases (now - r.clock_anchor_ms == 0)) [
    | inl z ↦ rw z v
    | inr n ↦ rw n (commit-IsRoom _ _ _ (advance-IsRoom r (now - r.clock_anchor_ms) now v))
  ])
]

-- What a commit leaves alone.
pub commit_state_change-same :
    (r : Room) (events : List GameEvent) (structural : Bool)
    → let q = (commit_state_change r events structural).0 in
      (q.state ≡ r.state)
      × (q.status ≡ r.status)
      × (q.player_a ≡ r.player_a)
      × (q.player_b ≡ r.player_b)
unfolding commit_state_change
commit_state_change-same r [] structural = (refl, refl, refl, refl)
commit_state_change-same r (e ∷ es) structural = (refl, refl, refl, refl)

advance-unfinished :
    (r : Room) (elapsed now : ℕ)
    → is_done r.status ≡ false
    → is_some (advance r elapsed now).0.state.winner ≡ false
    → is_done (advance r elapsed now).0.status ≡ false
unfolding advance finish_terminal
advance-unfinished r elapsed now u h = ground (arith, elapse_clock-eq r.state elapsed)

-- A settled clock that has not ended the game leaves the room unfinished.
pub settle_clock-unfinished :
    (r : Room) (now : ℕ)
    → is_done r.status ≡ false
    → is_some (settle_clock r now).0.state.winner ≡ false
    → is_done (settle_clock r now).0.status ≡ false
unfolding settle_clock
settle_clock-unfinished r now u open_game =
    let elapsed = now - r.clock_anchor_ms in
    let p = advance r elapsed now in
    let same = commit_state_change-same p.0 p.1 (is_some p.0.state.winner) in
    ground (arith, same, advance-unfinished r elapsed now)

advance-status :
    (r : Room) (elapsed now : ℕ)
    → is_some (advance r elapsed now).0.state.winner ≡ false
    → (advance r elapsed now).0.status ≡ r.status
unfolding advance finish_terminal
advance-status r elapsed now h = ground (arith, elapse_clock-eq r.state elapsed)

pub settle_uncommitted-status :
    (r : Room) (now : ℕ)
    → is_some (settle_uncommitted r now).0.state.winner ≡ false
    → (settle_uncommitted r now).0.status ≡ r.status
unfolding settle_uncommitted
settle_uncommitted-status r now h = ground (arith, advance-status r (now - r.clock_anchor_ms) now)
