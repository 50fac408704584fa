-- ===== src/Swiss/Round/Seated.antt =====
-- The seats of a round: who sits where, and in how many places.
use ottv.Prelude.{
  ℕ, suc, ◌≡◌, refl, ◌∙◌, ◌⊎◌, Bool, List, [], ◌∷◌, All, map, count, arith, inl, inr,
}
use ottv.Names.{Text}
use ottv.Swiss.Types.{Standing, Entry, HistoryMatch, Participant, Pair}
use ottv.Swiss.Entries.Checked.{entry_bot}
use ottv.Swiss.History.{make_pair_key, played_count}
use ottv.Swiss.History.Keys.{make_pair_key_comm}
use ottv.Swiss.Participants.{assemble_one, assemble_participants}
use ottv.Swiss.Matching.{rematches}
use ottv.Swiss.Matching.Distinct.{Distinct, DistinctBy, DistinctBy-map, flat}
use ottv.Swiss.Seats.{in_order, swapped, allocate_seats, by_last_seat}
use ottv.Swiss.Round.{Pairing, seat_pairs}

abbrev pub bot : Participant → Text
bot p = p.bot_id

count-map {ℓ κ} :
    {A : Type ℓ} {B : Type κ} (p : B → Bool) (f : A → B) (xs : List A)
    → count p (map f xs) ≡ count (λ x. p (f x)) xs
count-map p f [] = refl
count-map p f (x ∷ xs) = omega (arith, count-map p f xs)

allocate_seats-cases :
    (u v : Participant) (i : ℕ)
    → (allocate_seats u v i ≡ in_order u v) ⊎ (allocate_seats u v i ≡ swapped u v)
unfolding allocate_seats by_last_seat
allocate_seats-cases u v i = ground arith

-- The identifiers on the seats of the pairings.
abbrev pub seated_bots : List Pairing → List Text
seated_bots [] = []
seated_bots (q ∷ qs) = q.bot_a_id ∷ q.bot_b_id ∷ seated_bots qs

abbrev pub NumberedFrom : ℕ → List Pairing → Type 0
NumberedFrom i [] = Unit
NumberedFrom i (q ∷ qs) = (q.schedule_index ≡ i) × NumberedFrom (suc i) qs

-- The seats of a round whose pairs are known.
module _ (entries : List Entry) where
  pub seat_pairs-count :
      (p : Text → Bool) (i : ℕ) (qs : List Pair)
      → count p (seated_bots (seat_pairs entries i qs)) ≡ count (λ x. p (bot x)) (flat qs)
  unfolding seat_pairs
  seat_pairs-count p i [] = refl
  seat_pairs-count p i (q ∷ qs) = elim (allocate_seats-cases q.u q.v i) [
    | inl e ↦ rw e (omega (arith, seat_pairs-count p (suc i) qs))
    | inr e ↦ rw e (omega (arith, seat_pairs-count p (suc i) qs))
  ]

  pub seat_pairs-NumberedFrom : (i : ℕ) (qs : List Pair) → NumberedFrom i (seat_pairs entries i qs)
  unfolding seat_pairs
  seat_pairs-NumberedFrom i [] = tt
  seat_pairs-NumberedFrom i (q ∷ qs) = (refl, seat_pairs-NumberedFrom (suc i) qs)

  -- Pairs that have not met, on their seats.
  abbrev pub New : List HistoryMatch → Pairing → Type 0
  New matches q = played_count matches (make_pair_key q.bot_a_id q.bot_b_id) ≡ 0

  pub seat_pairs-New :
      (matches : List HistoryMatch) (i : ℕ) (qs : List Pair)
      → All (λ (q : Pair). rematches matches q.u q.v ≡ 0) qs
      → All (New matches) (seat_pairs entries i qs)
  unfolding seat_pairs rematches
  seat_pairs-New matches i [] a = tt
  seat_pairs-New matches i (q ∷ qs) (e, a) = elim (allocate_seats-cases q.u q.v i) [
    | inl s ↦ rw s (e, seat_pairs-New matches (suc i) qs a)
    | inr s ↦
        rw s (rw (make_pair_key_comm q.v.bot_id q.u.bot_id) e, seat_pairs-New matches (suc i) qs a)
  ]

pub assemble-count :
    (p : Text → Bool) (entries : List Entry) (standings : List Standing)
    (matches : List HistoryMatch)
    → count (λ x. p (bot x)) (assemble_participants entries standings matches)
      ≡ count (λ e. p (entry_bot e)) entries
unfolding assemble_participants assemble_one
assemble-count p entries standings matches =
    count-map _ _ (map (assemble_one standings matches) entries) ∙ count-map _ _ entries

pub assemble-Distinct :
    (entries : List Entry) (standings : List Standing) (matches : List HistoryMatch)
    → DistinctBy entry_bot entries
    → Distinct (assemble_participants entries standings matches)
unfolding assemble_participants assemble_one
assemble-Distinct entries standings matches d =
    DistinctBy-map bot bot _ (λ x. refl) (map (assemble_one standings matches) entries)
      (DistinctBy-map entry_bot bot (assemble_one standings matches) (λ x. refl) entries d)
