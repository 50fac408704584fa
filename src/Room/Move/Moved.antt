-- ===== src/Room/Move/Moved.antt =====
-- What an accepted move leaves of a room.
use mathlib.Core.Path.{subst}
use ottv.Prelude.{
  ℕ, suc, ◌≡◌, refl, ap, ◌∙◌, true, Option, some, List, ◌++◌, inl, inr, Option-cases,
}
use ottv.Rules.Types.{Seat, GameState, GameEvent}
use ottv.Rules.Board.{Sent}
use ottv.Rules.Apply.{RawPoint}
use ottv.Room.Valid.{commit_state_change-same}
use ottv.Room.Types.{Connection, LastMove, Room, NumberedEvent, seat_of, commit_state_change}
use ottv.Room.Clock.{settle_uncommitted}
use ottv.Room.Move.{
  MoveReply, accepted, record_move, next_clock, move_seated, handle_move, copied, not_in_room,
}
use ottv.Room.Move.Taken.{Taken, move_seated-Taken}
use ottv.Room.Move.Alike.{Alike, settle_uncommitted-Alike, next_clock-Alike, commit-structural}

accepted-inj : {xs ys : List NumberedEvent} → accepted xs ≡ accepted ys → xs ≡ ys
accepted-inj h = cc

-- The room after an accepted move, beside the one before it.
pub record Moved (r : Room) (seat : Seat) (from to : Option RawPoint) (expected : Option Sent)
    (q : Room) (events : List NumberedEvent) : Type 0 where
  pub seats_a : q.player_a ≡ r.player_a
  pub seats_b : q.player_b ≡ r.player_b
  pub counted : q.revision ≡ suc r.revision
  pub structural : q.structural_revision ≡ suc r.revision
  pub last : LastMove
  pub kept : q.last_move ≡ some last
  pub by_seat : last.seat ≡ seat
  pub source : last.from ≡ copied from
  pub target : last.to ≡ copied to
  pub asked : last.expected_revision ≡ expected
  pub told : last.events ≡ events

record_move-Moved :
    (r : Room) (seat : Seat) (from to : Option RawPoint) (expected : Option Sent) (now : ℕ)
    (before : List GameEvent) (g : GameState) (es : List GameEvent) (q : Room)
    (events : List NumberedEvent)
    → record_move r seat from to expected now before g es ≡ (q, accepted events)
    → Moved r seat from to expected q events
unfolding record_move
record_move-Moved r seat from to expected now before g es q events h =
    let on : Alike there (next_clock there) = next_clock-Alike there in
    let same = commit_state_change-same (next_clock there) (before ++ es) true in
    let steps = commit-structural (next_clock there) (before ++ es) in
    subst (λ (z : Room). Moved r seat from to expected z events)
      (ap (λ (z : Room × MoveReply). z.0) h)
      (record {
        seats_a = same.2 ∙ on.a;
        seats_b = same.3 ∙ on.b;
        counted = steps.0 ∙ ap suc on.revision_same;
        structural = steps.1 ∙ ap suc on.revision_same;
        last = record {
          seat = seat;
          from = copied from;
          to = copied to;
          revision_before = r.revision;
          revision_after = (commit_state_change (next_clock there) (before ++ es) true).0.revision;
          structural_revision_before = r.structural_revision;
          expected_revision = expected;
          events = (commit_state_change (next_clock there) (before ++ es) true).1;
        };
        kept = refl;
        by_seat = refl;
        source = refl;
        target = refl;
        asked = refl;
        told = accepted-inj (ap (λ (z : Room × MoveReply). z.1) h);
      })
  where
    there : Room
    there = record r { state = g; clock_anchor_ms = now }

pub handle_move-Moved :
    (r : Room) (c : Option Connection) (from to : Option RawPoint) (expected : Option Sent)
    (now later : ℕ) (q : Room) (events : List NumberedEvent)
    → handle_move r c from to expected now later ≡ (q, accepted events)
    → (seat : Seat) × (seat_of r c ≡ some seat)
      × Taken r seat from to expected now later q events
      × Moved r seat from to expected q events
unfolding handle_move
handle_move-Moved r c from to expected now later q events h = elim (Option-cases (seat_of r c)) [
  | inl e ↦
      let w : (r, not_in_room) ≡ (q, accepted events) = rw (e, handle_move) at h in absurd (cc)
  | inr (seat, e) ↦ (
    seat,
    e,
    taken seat (rw (e, handle_move) at h),
    moved seat (taken seat (rw (e, handle_move) at h)),
  )
]
  where
    taken :
        (seat : Seat)
        → move_seated r seat from to expected now later ≡ (q, accepted events)
        → Taken r seat from to expected now later q events
    taken seat h' = move_seated-Taken r seat from to expected now later q events h'

    moved :
        (seat : Seat)
        → Taken r seat from to expected now later q events
        → Moved r seat from to expected q events
    moved seat t =
        let like = settle_uncommitted-Alike r now in
        let m =
          record_move-Moved (settle_uncommitted r now).0 seat from to expected later
            (settle_uncommitted r now).1 t.state t.moved q events t.result in
        record {
          seats_a = m.seats_a ∙ like.a;
          seats_b = m.seats_b ∙ like.b;
          counted = m.counted ∙ ap suc like.revision_same;
          structural = m.structural ∙ ap suc like.revision_same;
          last = m.last;
          kept = m.kept;
          by_seat = m.by_seat;
          source = m.source;
          target = m.target;
          asked = m.asked;
          told = m.told;
        }
