-- ===== src/Room/Seats/Kept.antt =====
-- Joining, leaving and coming back keep a room valid.
use Prim.Native.String.{String}
use mathlib.Core.Path.{subst}
use ottv.Prelude.{
  ℕ, ◌≤◌, ◌≡◌, refl, sym, ◌∙◌, Bool, true, false, ◌&&◌, ◌||◌, not, Option, none, some, List, [],
  ◌∷◌, arith, inl, inr, Bool-cases, Option-cases,
}
use ottv.Names.{Text}
use ottv.Rules.Types.{Seat, seat_a, seat_b, GameState, GameEvent, win, Reason}
use ottv.Rules.Board.Occupancy.{IsBoard}
use ottv.Rules.Board.Start.{create_initial_state-IsBoard}
use ottv.Room.Types.{
  Connection, Room, Player, Status, playing, is_playing, is_waiting, is_done, is_some, connected,
  set_player, commit_state_change, room_initial_state,
}
use ottv.Room.Clock.{running_seat, cancel_clock_deadline}
use ottv.Room.Seats.{
  free_seat, start_game, seat_player, add_player, dropped, reconcile_hydration,
  expire_waiting_creator, declare_winner, close_for, is_expired,
}
use ottv.Room.Valid.{
  IsSound, IsRoom, commit-IsRoom, finished-IsSound, finish_terminal-IsRoom, schedule-IsRoom,
  stopped-IsSound,
}

-- Where no game is played the players do not matter.
pub idle-IsSound :
    (g : GameState) (status : Status) (a b a' b' : Option Player) (timer : Option ℕ)
    → IsSound g status a b timer
    → is_playing status ≡ false
    → IsSound g status a' b' timer
idle-IsSound g status a b a' b' timer v idle = record {
  board = v.board;
  seated = λ h. absurd (cc);
  open_game = λ h. absurd (cc);
  fair_clock = λ h s e. absurd (cc);
  over_clock = v.over_clock;
  no_timer = v.no_timer;
}

start_game-IsRoom :
    (r : Room) (now : ℕ)
    → is_some r.player_a ≡ true
    → is_some r.player_b ≡ true
    → r.structural_revision ≤ r.revision
    → IsRoom (start_game r now)
unfolding start_game room_initial_state
start_game-IsRoom r now ha hb o = schedule-IsRoom _ (elim (Bool-cases (connected r.player_a)) [
  | inl e ↦ rw e (record { sound = running e; ordered = o })
  | inr e ↦ rw e (record { sound = stopped; ordered = o })
])
  where
    running :
        connected r.player_a ≡ true
        → IsSound
            (room_initial_state r.initial_clock_ms)
            playing
            r.player_a
            r.player_b
            r.clock_timer
    running e = record {
      board = create_initial_state-IsBoard;
      seated = λ _. (ha, hb);
      open_game = λ _. refl;
      fair_clock = λ _ s h. let is_a : s ≡ seat_a = cc in (is_a, rw is_a e);
      over_clock = λ h. absurd (cc);
      no_timer = λ h. absurd (cc);
    }

    stopped :
        let g = room_initial_state r.initial_clock_ms in
        IsSound
          (record g { clock = record g.clock { running_seat = none } })
          playing
          r.player_a
          r.player_b
          r.clock_timer
    stopped = record {
      board = create_initial_state-IsBoard;
      seated = λ _. (ha, hb);
      open_game = λ _. refl;
      fair_clock = λ _ s h. absurd (cc);
      over_clock = λ h. absurd (cc);
      no_timer = λ h. absurd (cc);
    }

pub set_player-IsRoom :
    (r : Room) (seat : Seat) (p : Option Player)
    → IsRoom r
    → is_playing r.status ≡ false
    → IsRoom (set_player r seat p)
set_player-IsRoom r seat_a p v idle = record {
  sound = idle-IsSound _ _ _ _ _ _ _ v.sound idle;
  ordered = v.ordered;
}
set_player-IsRoom r seat_b p v idle = record {
  sound = idle-IsSound _ _ _ _ _ _ _ v.sound idle;
  ordered = v.ordered;
}

-- A room with a free seat does not play.
free_seat-idle :
    (r : Room) (seat : Seat) → IsRoom r → free_seat r ≡ some seat → is_playing r.status ≡ false
free_seat-idle r seat v h = elim (Bool-cases (is_playing r.status)) [
  | inl e ↦ let both = v.sound.seated e in absurd (ground arith)
  | inr e ↦ e
]

seat_player-IsRoom :
    (r : Room) (seat : Seat) (p : Player) (now : ℕ)
    → IsRoom r
    → free_seat r ≡ some seat
    → IsRoom (seat_player r seat p now)
unfolding commit_state_change
seat_player-IsRoom r seat p now v h =
    elim (Bool-cases (is_some after.player_a && is_some after.player_b)) [
      | inl e ↦ rw e (start_game-IsRoom after now (ground arith) (ground arith) (omega arith))
      | inr e ↦ rw e (
          commit-IsRoom _ [] true (set_player-IsRoom r seat (some p) v (free_seat-idle r seat v h)))
    ]
  where
    after : Room
    after = (commit_state_change (set_player r seat (some p)) [] true).0

pub add_player-IsRoom :
    (r : Room) (c : Option Connection) (name : Text) (token : String) (now : ℕ)
    → IsRoom r
    → IsRoom (add_player r c name token now).0
unfolding add_player
add_player-IsRoom r c name token now v = elim (Bool-cases (is_done r.status)) [
  | inl e ↦ rw e v
  | inr e ↦ rw e (elim (Option-cases (free_seat r)) [
    | inl full ↦ rw full v
    | inr (seat, free) ↦ rw free (seat_player-IsRoom r seat _ now v free)
  ])
]

pub is_some-dropped :
    (lost : Bool) (d : ℕ) (p : Option Player) → is_some (dropped lost d p) ≡ is_some p
is_some-dropped lost d p = ground arith

connected-dropped :
    (lost : Bool) (d : ℕ) (p : Option Player)
    → connected p ≡ true
    → (connected p && lost) ≡ false
    → connected (dropped lost d p) ≡ true
connected-dropped lost d p h k = ground arith

-- Seats that are lost while no clock runs.
unclocked-IsSound :
    (g : GameState) (status : Status) (a b a' b' : Option Player) (timer : Option ℕ)
    → IsSound g status a b timer
    → is_playing status && is_some g.clock.running_seat ≡ false
    → is_some a' ≡ is_some a
    → is_some b' ≡ is_some b
    → IsSound g status a' b' timer
unclocked-IsSound g status a b a' b' timer v off ea eb = record {
  board = v.board;
  seated = λ h. (ea ∙ (v.seated h).0, eb ∙ (v.seated h).1);
  open_game = v.open_game;
  fair_clock = λ h s e. absurd (ground arith);
  over_clock = v.over_clock;
  no_timer = v.no_timer;
}

pub reconcile_hydration-IsRoom :
    (r : Room) (now : ℕ) (keep_a keep_b : Bool)
    → IsRoom r
    → IsRoom (reconcile_hydration r now keep_a keep_b).0
unfolding reconcile_hydration cancel_clock_deadline
reconcile_hydration-IsRoom r now keep_a keep_b v = elim (Bool-cases (is_done r.status)) [
  | inl e ↦ rw e v
  | inr e ↦ rw e (elim (Bool-cases (lost_a || lost_b)) [
    | inr none_lost ↦ rw none_lost v
    | inl some_lost ↦ rw some_lost (
        commit-IsRoom _ [] true
          (elim (Bool-cases (is_playing r.status && is_some (running_seat r))) [
            | inl on ↦ rw on (record {
              sound =
                  stopped-IsSound _ _ _ _ _ v.sound _ _ (is_some-dropped lost_a _ r.player_a)
                    (is_some-dropped lost_b _ r.player_b);
              ordered = v.ordered;
            })
            | inr off ↦ rw off (record {
              sound =
                  unclocked-IsSound _ _ _ _ _ _ _ v.sound off (is_some-dropped lost_a _ r.player_a)
                    (is_some-dropped lost_b _ r.player_b);
              ordered = v.ordered;
            })
          ]))
  ])
]
  where
    lost_a : Bool
    lost_a = connected r.player_a && not keep_a

    lost_b : Bool
    lost_b = connected r.player_b && not keep_b

pub expire_waiting_creator-IsRoom :
    (r : Room) (now : ℕ) → IsRoom r → IsRoom (expire_waiting_creator r now).0
unfolding expire_waiting_creator
expire_waiting_creator-IsRoom r now v =
    elim (Bool-cases
      (is_waiting r.status && not (is_some r.player_b) && is_expired now r.player_a)) [
        | inl e ↦
            let off = v.sound.no_timer (ground arith) in
            rw e (
              commit-IsRoom _ [] true (record {
                sound = finished-IsSound _ _ _ _ v.sound.board refl off;
                ordered = v.ordered;
              }))
        | inr e ↦ rw e v
      ]

-- A commit leaves the game and the players alone, and the structural revision behind.
pub commit-same :
    (r : Room) (events : List GameEvent) (structural : Bool)
    → let q = (commit_state_change r events structural).0 in
      r.structural_revision ≤ r.revision
      → (q.state ≡ r.state) × (q.structural_revision ≤ q.revision)
unfolding commit_state_change
commit-same r [] structural o = (refl, ground arith)
commit-same r (e ∷ es) structural o = (refl, ground arith)

-- A game that is closed leaves a valid room, whoever is connected.
pub close_for-IsRoom :
    (r : Room) (winner : Seat) (reason : Reason)
    → IsBoard r.state.pieces
    → r.structural_revision ≤ r.revision
    → IsRoom (close_for r winner reason).0
unfolding close_for
close_for-IsRoom r winner reason b o =
    let (same, ordered) =
      commit-same (declare_winner r winner reason) (win winner reason none ∷ []) true o in
    finish_terminal-IsRoom _ (subst (λ (g : GameState). IsBoard g.pieces) (sym same) b) ordered
