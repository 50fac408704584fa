-- ===== src/RoundRobin/Balanced.antt =====
-- The two legs of a schedule.
use ottv.Prelude.{
  ℕ, suc, ◌-◌, ◌≡◌, refl, Bool, List, [], ◌∷◌, ◌++◌, map, count, count-append, length, arith,
}
use ottv.Names.{Text}
use ottv.Swiss.Types.{RawEntry}
use ottv.RoundRobin.{Match, reversed, Scheduled, schedule_from, circle_of, leg_one, schedule_of}

abbrev pub IndexedFrom : ℕ → List Scheduled → Type 0
IndexedFrom i [] = Unit
IndexedFrom i (s ∷ ss) = (s.schedule_index ≡ i) × IndexedFrom (suc i) ss

schedule_from-IndexedFrom : (i : ℕ) (ms : List Match) → IndexedFrom i (schedule_from i ms)
schedule_from-IndexedFrom i [] = tt
schedule_from-IndexedFrom i (m ∷ ms) = (refl, schedule_from-IndexedFrom (suc i) ms)

schedule_from-count :
    (p : Match → Bool) (i : ℕ) (ms : List Match)
    → count (λ (s : Scheduled). p s.game) (schedule_from i ms) ≡ count p ms
schedule_from-count p i [] = refl
schedule_from-count p i (m ∷ ms) = omega (arith, schedule_from-count p (suc i) ms)

reversed-count :
    (q : Text → Text → Bool) (rounds : ℕ) (ms : List Match)
    → count (λ (m : Match). q m.bot_a_id m.bot_b_id) (map (reversed rounds) ms)
      ≡ count (λ (m : Match). q m.bot_b_id m.bot_a_id) ms
reversed-count q rounds [] = refl
reversed-count q rounds (m ∷ ms) = omega (arith, reversed-count q rounds ms)

-- A schedule in which every meeting is mirrored and the games are numbered from 0.
pub record IsBalanced (schedule : List Scheduled) : Type 0 where
  mirrored :
      (q : Text → Text → Bool)
      → count (λ (s : Scheduled). q s.game.bot_a_id s.game.bot_b_id) schedule
        ≡ count (λ (s : Scheduled). q s.game.bot_b_id s.game.bot_a_id) schedule
  indexed : IndexedFrom 0 schedule

-- The schedule of any identifiers is numbered from 0 without a gap, and whatever two bots, the games
-- with one on seat A and the other on seat B are as many as those with the seats exchanged.
pub schedule_of-IsBalanced :
    (raws : List RawEntry) (ids : List Text) → IsBalanced (schedule_of raws ids)
unfolding schedule_of
schedule_of-IsBalanced raws ids =
    let circle = circle_of ids in
    let rounds = length circle - 1 in
    let first = leg_one raws 0 rounds circle in
    let ab : (Text → Text → Bool) → Match → Bool = λ q m. q m.bot_a_id m.bot_b_id in
    let ba : (Text → Text → Bool) → Match → Bool = λ q m. q m.bot_b_id m.bot_a_id in
    let both = first ++ map (reversed rounds) first in
    record {
      mirrored = λ q. omega (
        arith,
        schedule_from-count (ab q) 0 both,
        schedule_from-count (ba q) 0 both,
        count-append (ab q) first (map (reversed rounds) first),
        count-append (ba q) first (map (reversed rounds) first),
        reversed-count q rounds first,
        reversed-count (λ a b. q b a) rounds first,
      );
      indexed = schedule_from-IndexedFrom 0 both;
    }
