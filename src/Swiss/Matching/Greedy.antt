-- ===== src/Swiss/Matching/Greedy.antt =====
-- The greedy matching pairs every participant of an even pool, and warns of each rematch.
use Prim.Native.Nat.{Ordering}
use ottv.Prelude.{
  ℕ, zero, suc, ◌+◌, ◌-◌, ◌≤◌, ◌≡◌, refl, ap, ◌∙◌, Bool, true, false, ltb, List, [], ◌∷◌, ◌++◌, All,
  All-map_of, All-zip, All-sort_by, count, length, length-sort_by, arith,
}
use ottv.Names.{Text}
use ottv.Swiss.Types.{HistoryMatch, Participant, Pair, Outcome, done, same_text, same_text_refl}
use ottv.Swiss.Matching.{
  Warning, rematch_paired, rematches, take_out, warn_of, Paired, pair_first, least_played_first,
  greedy_loop,
}
use ottv.Swiss.Matching.Distinct.{Apart, Distinct, flat, one, same_text_comm}

-- An opponent that can be taken out of the list: the participants of distinct identifiers lose it
-- alone.
record Takes (ps : List Participant) (v : Participant) : Type 0 where
  taken : (p : Participant → Bool) → count p (take_out v.bot_id ps) + one p v ≡ count p ps
  shorter : suc (length (take_out v.bot_id ps)) ≡ length ps
  distinct : Distinct (take_out v.bot_id ps)
  among : (κ : Participant) → All (Apart κ) ps → All (Apart κ) (take_out v.bot_id ps)

Takes-head : (c : Participant) (cs : List Participant) → Distinct (c ∷ cs) → Takes (c ∷ cs) c
Takes-head c cs (a, d) =
    let e = same_text_refl c.bot_id in
    record {
      taken = λ p. rw e (omega arith);
      shorter = rw e refl;
      distinct = rw e d;
      among = λ k (x, b). rw e b;
    }

Takes-tail :
    (c v : Participant) (cs : List Participant)
    → All (Apart c) cs
    → Apart c v
    → Takes cs v
    → Takes (c ∷ cs) v
Takes-tail c v cs a y t =
    let z : same_text c.bot_id v.bot_id ≡ false = same_text_comm c.bot_id v.bot_id ∙ y in
    record {
      taken = λ p. rw z (omega (arith, t.taken p));
      shorter = rw z (ap suc t.shorter);
      distinct = rw z (t.among c a, t.distinct);
      among = λ k (x, b). rw z (x, t.among k b);
    }

Distinct-Takes : (ps : List Participant) → Distinct ps → All (Takes ps) ps
Distinct-Takes [] d = tt
Distinct-Takes (c ∷ cs) (a, d) = (
  Takes-head c cs (a, d),
  All-zip (Apart c) (Takes cs) (Takes (c ∷ cs)) cs (λ v y t. Takes-tail c v cs a y t) a
      (Distinct-Takes cs d),
)

abbrev pub Even : ℕ → Type 0
Even n = (k : ℕ) × (n ≡ k + k)

module _ (locale_compare : Text → Text → Ordering) (matches : List HistoryMatch) where
  -- The warning for a pair that has met a number of times before: none for a pair that has not.
  abbrev pub warning_after : ℕ → Pair → List Warning
  warning_after zero q = []
  warning_after (suc n) q = rematch_paired q.u.bot_id q.v.bot_id ∷ []

  -- The warnings for the pairs that have met before, in their order.
  abbrev pub warned : List Pair → List Warning
  warned [] = []
  warned (q ∷ qs) = warning_after (rematches matches q.u q.v) q ++ warned qs

  warn_of-warning_after :
      (u v : Participant)
      → warn_of locale_compare matches u v
        ≡ warning_after (rematches matches u v) (record { u = u; v = v })
  warn_of-warning_after u v = go (rematches matches u v) refl
    where
      go :
          (n : ℕ)
          → rematches matches u v ≡ n
          → warn_of locale_compare matches u v ≡ warning_after n (record { u = u; v = v })
      go zero e = rw e refl
      go (suc n) e =
          let met : ltb 0 (rematches matches u v) ≡ true = rw e (ground arith) in rw met refl

  -- The result of the loop: the pairs hold the pool, and there is a warning for each rematch.
  pub record IsPaired (pool : List Participant) (r : Outcome Paired) : Type 0 where
    pub pairs : List Pair
    pub result : r ≡ done (pairs, warned pairs)
    pub covers : (p : Participant → Bool) → count p (flat pairs) ≡ count p pool

  pair_first-IsPaired :
      (next : List Participant → Outcome Paired) (u : Participant)
      (remaining sorted : List Participant)
      → 1 ≤ length sorted
      → All
          (λ v.
            Takes remaining v
            × IsPaired (take_out v.bot_id remaining) (next (take_out v.bot_id remaining)))
          sorted
      → IsPaired (u ∷ remaining) (pair_first locale_compare matches next u remaining sorted)
  pair_first-IsPaired next u remaining [] m a = absurd (omega arith)
  pair_first-IsPaired next u remaining (v ∷ vs) m ((t, r), a) = record {
    pairs = record { u = u; v = v } ∷ r.pairs;
    result = rw (r.result, warn_of-warning_after u v) refl;
    covers = λ p. omega (arith, t.taken p, r.covers p);
  }

  -- With distinct identifiers, an even number of participants and at least that much fuel, the greedy
  -- loop gives pairs that hold every participant once and nobody else, and its warnings are one for
  -- each pair that has met before by the count of the history, in the order of the pairs, and no other.
  pub greedy_loop-IsPaired :
      (fuel : ℕ) (pool : List Participant)
      → Distinct pool
      → Even (length pool)
      → length pool ≤ fuel
      → IsPaired pool (greedy_loop locale_compare matches fuel pool)
  unfolding greedy_loop
  greedy_loop-IsPaired fuel [] d e h = record { pairs = []; result = refl; covers = λ p. refl }
  greedy_loop-IsPaired zero (u ∷ us) d e h = absurd (omega arith)
  greedy_loop-IsPaired (suc fuel) (u ∷ us) (a, d) (k, e) h =
      pair_first-IsPaired (greedy_loop locale_compare matches fuel) u us _
        (omega (arith, length-sort_by (least_played_first locale_compare matches u) us))
        (All-sort_by _ (least_played_first locale_compare matches u) us (
          All-map_of _ _
            (λ v t. (
              t,
              greedy_loop-IsPaired fuel (take_out v.bot_id us) t.distinct
                  (k - 1, omega (arith, t.shorter)) (omega (arith, t.shorter)),
            ))
            us (Distinct-Takes us d)))
