-- ===== src/Room/Retry.antt =====
-- What `handleMove` of class `Room` does with a move that is sent again, and with old revisions.
use ottv.Prelude.{
  ℕ, suc, ◌≡◌, refl, ap, ◌∙◌, true, false, Option, none, some, List, pos, negsuc, eq_ℤ_refl, arith,
}
use ottv.Rules.Types.{Seat, seat_a, seat_b, Point, seat_eq}
use ottv.Rules.Board.{Sent, inside_point, whole, other_value}
use ottv.Rules.Apply.{RawPoint}
use ottv.Rules.Apply.Accepted.{apply_move-Accepted}
use ottv.Room.Types.{Connection, LastMove, Room, NumberedEvent, seat_of}
use ottv.Room.Move.{
  accepted, duplicate, is_duplicate, is_stale, move_seated, handle_move, same_square,
  last_events_of, same_sent, copied, retry_revision,
}
use ottv.Room.Move.Taken.{Taken}
use ottv.Room.Move.Moved.{Moved, handle_move-Moved}

seat_of-same :
    (r q : Room) (c : Option Connection)
    → q.player_a ≡ r.player_a
    → q.player_b ≡ r.player_b
    → seat_of q c ≡ seat_of r c
unfolding seat_of
seat_of-same r q c a b = rw (a, b) refl

seat_eq_refl : (s : Seat) → seat_eq s s ≡ true
seat_eq_refl seat_a = refl
seat_eq_refl seat_b = refl

same_sent_refl :
    (x y : Sent) (f : Point)
    → inside_point x y ≡ some f
    → (same_sent x x ≡ true) × (same_sent y y ≡ true)
unfolding inside_point
same_sent_refl (whole i) (whole j) f h = (eq_ℤ_refl i, eq_ℤ_refl j)
same_sent_refl (whole i) other_value f h = absurd (cc)
same_sent_refl other_value y f h = absurd (cc)

retry_revision-expected :
    (r : Room) (m : LastMove) (expected : Option Sent)
    → is_stale r expected ≡ false
    → m.expected_revision ≡ expected
    → retry_revision m expected ≡ true
unfolding is_stale
retry_revision-expected r m none h e = refl
retry_revision-expected r m (some (whole (pos n))) h e = rw (e, eq_ℤ_refl) ground arith
retry_revision-expected r m (some (whole (negsuc n))) h e = absurd (cc)
retry_revision-expected r m (some other_value) h e = absurd (cc)

same_square_refl :
    (p : Option RawPoint) (raw : RawPoint) (f : Point)
    → p ≡ some raw
    → inside_point raw.raw_x raw.raw_y ≡ some f
    → same_square (copied p) p ≡ true
same_square_refl none raw f e h = absurd (cc)
same_square_refl (some q) raw f e h =
    let w = same_sent_refl q.raw_x q.raw_y f (ground arith) in rw (w.0, w.1) refl

Moved-is_duplicate :
    (r : Room) (seat : Seat) (from to : Option RawPoint) (expected : Option Sent) (now later : ℕ)
    (q : Room) (events : List NumberedEvent) (t : Taken r seat from to expected now later q events)
    (m : Moved r seat from to expected q events)
    → is_duplicate q.last_move seat from to expected ≡ true
unfolding is_duplicate
Moved-is_duplicate r seat from to expected now later q events t m =
    let a = apply_move-Accepted _ (some seat) from to t.applied in
    let source : same_square m.last.from from ≡ true =
      ap (λ (p : RawPoint). same_square p from) m.source
      ∙ same_square_refl from a.raw_from a.f a.from_given a.from_inside in
    let target : same_square m.last.to to ≡ true =
      ap (λ (p : RawPoint). same_square p to) m.target
      ∙ same_square_refl to a.raw_to a.t a.to_given a.to_inside in
    let seat_same : seat_eq m.last.seat seat ≡ true =
      ap (λ (s : Seat). seat_eq s seat) m.by_seat ∙ seat_eq_refl seat in
    rw m.kept (
      rw (seat_same, source, target, retry_revision-expected r m.last expected t.current m.asked)
        refl)

-- A move that has been accepted, when the same connection sends it again, with the same squares
-- and the same revision and at any time, with no call in between, is answered as a duplicate with
-- the same events, and does not change the room.
pub handle_move-retry :
    (r : Room) (c : Option Connection) (from to : Option RawPoint) (expected : Option Sent)
    (now later : ℕ) (q : Room) (events : List NumberedEvent) (now' later' : ℕ)
    → handle_move r c from to expected now later ≡ (q, accepted events)
    → handle_move q c from to expected now' later' ≡ (q, duplicate events)
unfolding handle_move move_seated
handle_move-retry r c from to expected now later q events now' later' h =
    let (seat, e, t, m) = handle_move-Moved r c from to expected now later q events h in
    let seated : seat_of q c ≡ some seat = seat_of-same r q c m.seats_a m.seats_b ∙ e in
    let again = Moved-is_duplicate r seat from to expected now later q events t m in
    let same : last_events_of q.last_move ≡ events = ap last_events_of m.kept ∙ m.told in
    rw (seated, handle_move) (rw again (ap (λ (es : List NumberedEvent). (q, duplicate es)) same))

-- When a move that names a revision is accepted, the revision is a whole number from the
-- structural revision of the room to its revision, and both become the next number, so that every
-- revision that was current before is stale after the move.
pub record Outdated (r q : Room) (expected : Option Sent) : Type 0 where
  pub was_current : is_stale r expected ≡ false
  pub counted : q.revision ≡ suc r.revision
  pub structural_now : q.structural_revision ≡ suc r.revision
  pub stale_now : (e : Sent) → is_stale r (some e) ≡ false → is_stale q (some e) ≡ true

pub handle_move-Outdated :
    (r : Room) (c : Option Connection) (from to : Option RawPoint) (expected : Option Sent)
    (now later : ℕ) (q : Room) (events : List NumberedEvent)
    → handle_move r c from to expected now later ≡ (q, accepted events)
    → Outdated r q expected
unfolding is_stale
handle_move-Outdated r c from to expected now later q events h =
    let (seat, e, t, m) = handle_move-Moved r c from to expected now later q events h in
    record {
      was_current = t.current;
      counted = m.counted;
      structural_now = m.structural;
      stale_now = λ x u. outside r q x m.structural u;
    }
  where
    outside :
        (a b : Room) (x : Sent)
        → b.structural_revision ≡ suc a.revision
        → is_stale a (some x) ≡ false
        → is_stale b (some x) ≡ true
    outside a b (whole (pos n)) s u = ground arith
    outside a b (whole (negsuc n)) s u = refl
    outside a b other_value s u = refl
