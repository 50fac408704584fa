-- ===== src/Room/Move/Alike.antt =====
-- What settling the clock and setting the next one leave alone in a room.
use ottv.Prelude.{ℕ, suc, ◌≡◌, refl, true, List, [], ◌∷◌, inl, inr, Bool-cases, not, ◌-◌, ◌==◌}
use ottv.Rules.Types.{GameState, GameEvent}
use ottv.Rules.Time.{elapse_for}
use ottv.Rules.Time.Elapsed.{elapse_clock-eq}
use ottv.Room.Types.{connected, Room, player_of, is_some, commit_state_change}
use ottv.Room.Clock.{
  settle_uncommitted, clock_stopped, advance, finish_terminal, schedule_clock_deadline,
  cancel_clock_deadline,
}
use ottv.Room.Move.{next_clock}

-- The parts of a room that a move does not touch before it is placed.
pub record Alike (r q : Room) : Type 0 where
  pub a : q.player_a ≡ r.player_a
  pub b : q.player_b ≡ r.player_b
  pub revision_same : q.revision ≡ r.revision
  pub structural_same : q.structural_revision ≡ r.structural_revision

advance-Alike : (r : Room) (elapsed now : ℕ) → Alike r (advance r elapsed now).0
unfolding advance finish_terminal cancel_clock_deadline
advance-Alike r elapsed now =
    rw (elapse_clock-eq r.state elapsed, advance)
      (elim (Bool-cases (is_some u.winner)) [
        | inl e ↦ rw e (record { a = refl; b = refl; revision_same = refl; structural_same = refl })
        | inr e ↦ rw e (record { a = refl; b = refl; revision_same = refl; structural_same = refl })
      ])
  where
    u : GameState
    u = (elapse_for r.state r.state.winner r.state.clock.running_seat elapsed).0

pub settle_uncommitted-Alike : (r : Room) (now : ℕ) → Alike r (settle_uncommitted r now).0
unfolding settle_uncommitted
settle_uncommitted-Alike r now = elim (Bool-cases (clock_stopped r)) [
  | inl e ↦ rw e (record { a = refl; b = refl; revision_same = refl; structural_same = refl })
  | inr e ↦ rw e (elim (Bool-cases (now - r.clock_anchor_ms == 0)) [
    | inl z ↦ rw z (record { a = refl; b = refl; revision_same = refl; structural_same = refl })
    | inr n ↦ rw n (advance-Alike r (now - r.clock_anchor_ms) now)
  ])
]

pub next_clock-Alike : (r : Room) → Alike r (next_clock r)
unfolding finish_terminal schedule_clock_deadline cancel_clock_deadline
next_clock-Alike r = elim (Bool-cases (is_some r.state.winner)) [
  | inl e ↦ rw e (record { a = refl; b = refl; revision_same = refl; structural_same = refl })
  | inr e ↦ rw e (elim (Bool-cases (not (connected (player_of r r.state.turn)))) [
    | inl z ↦ rw z (record { a = refl; b = refl; revision_same = refl; structural_same = refl })
    | inr n ↦ rw n (record { a = refl; b = refl; revision_same = refl; structural_same = refl })
  ])
]

-- What a structural commit does to the parts above.
pub commit-structural :
    (r : Room) (events : List GameEvent)
    → let q = (commit_state_change r events true).0 in
      (q.revision ≡ suc r.revision) × (q.structural_revision ≡ suc r.revision)
unfolding commit_state_change
commit-structural r [] = (refl, refl)
commit-structural r (e ∷ es) = (refl, refl)
