-- ===== src/BotCup/Swiss/Paired.antt =====
-- A Swiss round of the cup has everybody in it.
use Prim.Native.Nat.{Ordering, ◌%◌}
use ottv.Prelude.{
  ℕ, ◌+◌, ◌≤◌, ◌≡◌, refl, Bool, Option, none, some, List, [], ◌∷◌, map, count, length, arith,
}
use ottv.Names.{Text}
use ottv.Swiss.Types.{Entry, done}
use ottv.Swiss.Entries.{normalize_swiss_entries}
use ottv.Swiss.Round.{Pairing}
use ottv.Swiss.Round.Complete.{pair_swiss_round-IsRound}
use ottv.Swiss.Round.Seated.{seated_bots}
use ottv.BotCup.Table.{Row}
use ottv.BotCup.Swiss.{PastPairing, CupMatch, CupRound, options_of, match_of, first_bye, pair_swiss}

-- The teams on the seats, and that with the bye.
abbrev pub cup_seats : List CupMatch → List Text
cup_seats [] = []
cup_seats (m ∷ ms) = m.a ∷ m.b ∷ cup_seats ms

abbrev pub resting : Option Text → List Text
resting none = []
resting (some id) = id ∷ []

cup_seats-count :
    (p : Text → Bool) (qs : List Pairing)
    → count p (cup_seats (map match_of qs)) ≡ count p (seated_bots qs)
cup_seats-count p [] = refl
cup_seats-count p (q ∷ qs) = omega (arith, cup_seats-count p qs)

resting-count :
    (p : Text → Bool) (n : ℕ) (byes : List Text)
    → length byes ≡ n % 2
    → count p (resting (first_bye byes)) ≡ count p byes
resting-count p n [] h = refl
resting-count p n (id ∷ []) h = refl
resting-count p n (id ∷ id' ∷ ids) h = absurd (omega arith)

-- When the identifiers of the active teams are let through as entries, in a round from 1 to the number
-- of rounds, the cup round is made, and each of the entries has one seat or the bye.
pub pair_swiss_complete :
    (locale_compare : Text → Text → Ordering) (active : List Text) (round round_count : ℕ)
    (standings : List Row) (history : List PastPairing) (entries : List Entry)
    → normalize_swiss_entries locale_compare
        (options_of active round round_count standings history).entries
      ≡ done entries
    → 1 ≤ round
    → round ≤ round_count
    → (r : CupRound) × (pair_swiss locale_compare active round round_count standings history
        ≡ done r)
      × ((p : Text → Bool)
          → count p (cup_seats r.pairings) + count p (resting r.bye_team)
            ≡ count (λ (e : Entry). p e.bot_id) entries)
unfolding pair_swiss
pair_swiss_complete locale_compare active round round_count standings history entries e low high =
    let o = options_of active round round_count standings history in
    let (r, made, good) =
      pair_swiss_round-IsRound locale_compare o entries round round_count e refl refl low high in
    (
      record {
        pairings = map match_of r.pairings;
        bye_team = first_bye r.byes;
        warnings = r.warnings;
      },
      rw made refl,
      λ p. omega (
        arith,
        cup_seats-count p r.pairings,
        resting-count p (length entries) r.byes good.odd_bye,
        good.covers p,
      ),
    )
