-- ===== src/Room/Move/Taken.antt =====
-- How `handleMove` of class `Room` comes to accept a move.
use ottv.Prelude.{ℕ, ◌≡◌, false, Option, some, List, inl, inr, Bool-cases, not, if◌then◌else◌}
use ottv.Rules.Types.{Seat, GameState, GameEvent, ok}
use ottv.Rules.Board.{Sent}
use ottv.Rules.Apply.{RawPoint, apply_move}
use ottv.Room.Types.{Room, NumberedEvent, is_playing, is_some}
use ottv.Room.Clock.{settle_uncommitted}
use ottv.Room.Move.Kept.{Result-cases}
use ottv.Room.Move.{
  MoveReply, accepted, duplicate, refused, crashed, not_started, commit_if_any, finish_settled,
  stale_revision, record_move, attempt_move, is_duplicate, is_stale, move_seated, last_events_of,
}

-- How a move came to be accepted.
pub record Taken (r : Room) (seat : Seat) (from to : Option RawPoint) (expected : Option Sent)
    (now later : ℕ) (q : Room) (events : List NumberedEvent) : Type 0 where
  pub current : is_stale r expected ≡ false
  pub state : GameState
  pub moved : List GameEvent
  pub applied :
      apply_move (some (settle_uncommitted r now).0.state) (some seat) from to ≡ ok (state, moved)
  pub result :
      record_move
        (settle_uncommitted r now).0
        seat
        from
        to
        expected
        later
        (settle_uncommitted r now).1
        state
        moved
      ≡ (q, accepted events)

attempt_move-accepted :
    (r : Room) (before : List GameEvent) (seat : Seat) (from to : Option RawPoint)
    (expected : Option Sent) (now : ℕ) (q : Room) (events : List NumberedEvent)
    → attempt_move r before seat from to expected now ≡ (q, accepted events)
    → (g : GameState) × (es : List GameEvent) × (apply_move (some r.state) (some seat) from to
        ≡ ok (g, es))
      × (record_move r seat from to expected now before g es ≡ (q, accepted events))
unfolding attempt_move
attempt_move-accepted r before seat from to expected now q events h =
    elim (Result-cases (apply_move (some r.state) (some seat) from to)) [
      | inl ((g, es), e) ↦ (g, es, e, rw (e, attempt_move) at h)
      | inr (inl (x, e)) ↦
          let w : ((commit_if_any r before false).0, refused x) ≡ (q, accepted events) =
            rw (e, attempt_move) at h in
          absurd (cc)
      | inr (inr e) ↦
          let w : (r, crashed) ≡ (q, accepted events) = rw (e, attempt_move) at h in absurd (cc)
    ]

abbrev fresh_part :
    Room
    → Seat
    → Option RawPoint
    → Option RawPoint
    → Option Sent
    → ℕ
    → Room × List GameEvent
    → Room × MoveReply
fresh_part r seat from to expected later settled =
    if not (is_playing r.status)
    then (r, not_started)
    else if is_stale r expected
    then (r, stale_revision r.revision expected)
    else if is_some settled.0.state.winner
    then finish_settled settled
    else attempt_move settled.0 settled.1 seat from to expected later

pub move_seated-Taken :
    (r : Room) (seat : Seat) (from to : Option RawPoint) (expected : Option Sent) (now later : ℕ)
    (q : Room) (events : List NumberedEvent)
    → move_seated r seat from to expected now later ≡ (q, accepted events)
    → Taken r seat from to expected now later q events
unfolding move_seated
move_seated-Taken r seat from to expected now later q events h =
    elim (Bool-cases (is_duplicate r.last_move seat from to expected)) [
      | inl e ↦
          let w : (r, duplicate (last_events_of r.last_move)) ≡ (q, accepted events) = rw e at h in
          absurd (cc)
      | inr e ↦ fresh (rw e at h)
    ]
  where
    settled : Room × List GameEvent
    settled = settle_uncommitted r now

    taken :
        is_stale r expected ≡ false
        → attempt_move settled.0 settled.1 seat from to expected later ≡ (q, accepted events)
        → Taken r seat from to expected now later q events
    taken current w =
        let (g, es, applied, result) = attempt_move-accepted _ _ _ _ _ _ _ _ _ w in
        record { current = current; state = g; moved = es; applied = applied; result = result }

    fresh :
        fresh_part r seat from to expected later settled ≡ (q, accepted events)
        → Taken r seat from to expected now later q events
    fresh w = elim (Bool-cases (is_playing r.status)) [
      | inr e ↦ let u = rw e at w in absurd (cc)
      | inl e ↦
          let u = rw e at w in
          elim (Bool-cases (is_stale r expected)) [
            | inl e' ↦ let t = rw e' at u in absurd (cc)
            | inr e' ↦
                let t = rw e' at u in
                elim (Bool-cases (is_some settled.0.state.winner)) [
                  | inl e'' ↦ let y = rw e'' at t in absurd (cc)
                  | inr e'' ↦ taken e' (rw e'' at t)
                ]
          ]
    ]
