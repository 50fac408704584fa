-- ===== src/Room/Seats/Back.antt =====
-- Resuming and expiring keep a room valid.
use Prim.Native.String.{String}
use ottv.Prelude.{
  ℕ, ◌≡◌, refl, ◌∙◌, Bool, true, false, ◌&&◌, ◌||◌, Option, none, some, [], arith, inl, inr,
  if◌then◌else◌, Bool-cases,
}
use ottv.Rules.Types.{Seat, seat_a, seat_b, disconnect_timeout}
use ottv.Room.Types.{Connection, Room, Player, is_playing, is_done, is_some, connected, player_of}
use ottv.Room.Clock.{settle_clock}
use ottv.Room.Seats.{
  can_resume, resume_at, resume_seat, resume_player, expire_reconnect, is_expired, wanted,
}
use ottv.Room.Seats.Kept.{idle-IsSound, close_for-IsRoom}
use ottv.Room.Valid.{
  IsSound, IsRoom, pick, commit-IsRoom, schedule-IsRoom, settle_clock-IsRoom,
  settle_clock-unfinished,
}
use ottv.Room.Seats.Gone.{winner-idle}

pub expire_reconnect-IsRoom :
    (r : Room) (now : ℕ) (only : Option Seat) → IsRoom r → IsRoom (expire_reconnect r now only).0
unfolding expire_reconnect
expire_reconnect-IsRoom r now only v = elim (Bool-cases (is_playing r.status)) [
  | inr idle ↦ rw idle v
  | inl on ↦ rw on (elim (Bool-cases (hit seat_a || hit seat_b)) [
    | inr none_hit ↦ rw none_hit v
    | inl some_hit ↦ rw some_hit (elim (Bool-cases (is_some settled.state.winner)) [
      | inl won ↦ rw won sv
      | inr open_game ↦
          rw open_game (close_for-IsRoom settled _ disconnect_timeout sv.sound.board sv.ordered)
    ])
  ])
]
  where
    hit : Seat → Bool
    hit seat = is_expired now (player_of r seat) && wanted only seat

    settled : Room
    settled = (settle_clock r now).0

    sv : IsRoom settled
    sv = settle_clock-IsRoom r now v

-- The seat on turn runs if it is connected.
ticking-IsRoom :
    (r : Room)
    → IsRoom r
    → is_done r.status ≡ false
    → (a b : Option Player) (now : ℕ) → is_some a ≡ is_some r.player_a
    → is_some b ≡ is_some r.player_b
    → IsSound
        (let g = r.state in
          record g {
            clock = record g.clock {
              running_seat = if connected (pick a b g.turn) then some g.turn else none;
            };
          })
        r.status
        a
        b
        r.clock_timer
ticking-IsRoom r v open_room a b now ea eb = record {
  board = v.sound.board;
  seated = λ h. (ea ∙ (v.sound.seated h).0, eb ∙ (v.sound.seated h).1);
  open_game = v.sound.open_game;
  fair_clock = λ h s e. ground arith;
  over_clock = λ h. absurd (cc);
  no_timer = v.sound.no_timer;
}

is_some-resume_at :
    (c : Option Connection) (p : Option Player) → is_some (resume_at c p) ≡ is_some p
is_some-resume_at c p = ground arith

resume_seat-IsRoom :
    (r : Room) (c : Option Connection) (seat : Seat) (now : ℕ)
    → IsRoom r
    → is_done r.status ≡ false
    → IsRoom (resume_seat r c seat now).0
unfolding resume_seat
resume_seat-IsRoom r c seat_a now v open_room =
    commit-IsRoom _ [] true (elim (Bool-cases (is_some settled.state.winner)) [
      | inl won ↦ rw won (record {
        sound = idle-IsSound _ _ _ _ _ _ _ sv.sound (winner-idle settled sv won);
        ordered = sv.ordered;
      })
      | inr open_game ↦ rw open_game (
          schedule-IsRoom _ (record {
            sound =
                ticking-IsRoom settled sv (settle_clock-unfinished r now open_room open_game) _ _
                  now (is_some-resume_at c settled.player_a) refl;
            ordered = sv.ordered;
          }))
    ])
  where
    settled : Room
    settled = (settle_clock r now).0

    sv : IsRoom settled
    sv = settle_clock-IsRoom r now v
resume_seat-IsRoom r c seat_b now v open_room =
    commit-IsRoom _ [] true (elim (Bool-cases (is_some settled.state.winner)) [
      | inl won ↦ rw won (record {
        sound = idle-IsSound _ _ _ _ _ _ _ sv.sound (winner-idle settled sv won);
        ordered = sv.ordered;
      })
      | inr open_game ↦ rw open_game (
          schedule-IsRoom _ (record {
            sound =
                ticking-IsRoom settled sv (settle_clock-unfinished r now open_room open_game) _ _
                  now refl (is_some-resume_at c settled.player_b);
            ordered = sv.ordered;
          }))
    ])
  where
    settled : Room
    settled = (settle_clock r now).0

    sv : IsRoom settled
    sv = settle_clock-IsRoom r now v

pub resume_player-IsRoom :
    (r : Room) (c : Option Connection) (token : String) (now : ℕ)
    → IsRoom r
    → IsRoom (resume_player r c token now).0
unfolding resume_player
resume_player-IsRoom r c token now v = elim (Bool-cases (is_done r.status)) [
  | inl e ↦ rw e v
  | inr e ↦ rw e (elim (Bool-cases (can_resume token now r.player_a)) [
    | inl a ↦ rw a (resume_seat-IsRoom r c seat_a now v e)
    | inr na ↦ rw na (elim (Bool-cases (can_resume token now r.player_b)) [
      | inl b ↦ rw b (resume_seat-IsRoom r c seat_b now v e)
      | inr nb ↦ rw nb v
    ])
  ])
]
