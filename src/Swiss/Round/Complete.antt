-- ===== src/Swiss/Round/Complete.antt =====
-- A round pairs everybody once, but for the bye.
use mathlib.Core.Path.{subst}
use Prim.Native.Nat.{Ordering, ◌%◌, ◌/◌}
use ottv.Prelude.{
  ◌&&◌, ℕ, ◌+◌, ◌≤◌, ◌≡◌, refl, sym, ap, ◌∙◌, ◌⊎◌, Bool, true, false, Option, List, [], ◌∷◌, leb,
  All, pos, count, count-sort_by, length, length-sort_by, sort_by, arith, inl, inr, Option-cases,
}
use ottv.Names.{Text}
use ottv.Rules.Board.{Sent, whole}
use ottv.Swiss.Types.{
  Entry, HistoryMatch, Participant, Pair, Outcome, done, ◌>>=◌, ◌>>◌, ensure,
  round_number_not_integer, round_count_not_integer, round_count_low, round_number_outside,
}
use ottv.Swiss.Entries.{normalize_swiss_entries}
use ottv.Swiss.Entries.Checked.{entry_bot, normalize-Distinct}
use ottv.Swiss.History.{chronicle}
use ottv.Swiss.Participants.{
  assemble_participants, select_fair_bye, sort_pool_descending, strongest_first, without,
}
use ottv.Swiss.Participants.Bye.{
  Selection, nobody, somebody, length-count, select_fair_bye-Selection,
}
use ottv.Swiss.Matching.{
  Budget, Paired, Warning, fallback, rematches, find_rematch_free_matching,
  greedy_fallback_matching,
}
use ottv.Swiss.Matching.Distinct.{Distinct, Distinct-filter, DistinctBy, DistinctBy-sort_by, flat}
use ottv.Swiss.Matching.Search.{find-IsMatching}
use ottv.Swiss.Matching.Greedy.{Even, warned, greedy_loop-IsPaired}
use ottv.Swiss.Round.{
  is_integer, natural, Options, Round, seat_pairs, bye_ids, match_pool, pair_swiss_round,
}
use ottv.Swiss.Round.Seated.{
  bot, seated_bots, NumberedFrom, seat_pairs-count, seat_pairs-NumberedFrom, New, seat_pairs-New,
  assemble-count, assemble-Distinct,
}

module _ (locale_compare : Text → Text → Ordering) where
  -- There is no warning and `Fresh` holds, or the first warning is that of the fallback.
  abbrev FreshOr : Type 0 → List Warning → Type 0
  FreshOr Fresh ws = ((ws ≡ []) × Fresh) ⊎ ((rest : List Warning) × (ws ≡ fallback ∷ rest))

  FreshOr-map :
      (Fresh Other : Type 0) (ws : List Warning)
      → (Fresh → Other)
      → FreshOr Fresh ws
      → FreshOr Other ws
  FreshOr-map Fresh Other ws f (inl (e, a)) = inl (e, f a)
  FreshOr-map Fresh Other ws f (inr r) = inr r

  -- A pool that has been paired.
  record IsMatched (matches : List HistoryMatch) (pool : List Participant) (r : Outcome Paired)
      : Type 0 where
    pairs : List Pair
    warnings : List Warning
    result : r ≡ done (pairs, warnings)
    covers : (p : Participant → Bool) → count p (flat pairs) ≡ count p pool
    fresh : FreshOr (All (λ (q : Pair). rematches matches q.u q.v ≡ 0) pairs) warnings

  match_pool-IsMatched :
      (matches : List HistoryMatch) (pool : List Participant)
      → Distinct pool
      → Even (length pool)
      → IsMatched matches pool (match_pool locale_compare matches pool)
  unfolding match_pool greedy_fallback_matching
  match_pool-IsMatched matches pool d even =
      elim (Option-cases
        (find_rematch_free_matching locale_compare matches (length pool) pool start).0) [
          | inr (pairs, e) ↦
              let m = find-IsMatching locale_compare matches (length pool) pool start pairs d e in
              record {
                pairs = pairs;
                warnings = [];
                result = rw (e, match_pool) refl;
                covers = m.covers;
                fresh = inl (refl, m.fresh);
              }
          | inl e ↦
              let g =
                greedy_loop-IsPaired locale_compare matches (length pool) pool d even
                  (omega arith) in
              record {
                pairs = g.pairs;
                warnings = fallback ∷ warned locale_compare matches g.pairs;
                result = rw (e, match_pool) (rw g.result refl);
                covers = g.covers;
                fresh = inr (warned locale_compare matches g.pairs, refl);
              }
        ]
    where
      start : Budget
      start = record { steps = 0; exhausted = false }

  -- Everybody who has entered has one seat or the bye, which is given for an odd number only; the
  -- pairings are numbered from 0; no two meet again, or the first warning is that of the fallback.
  pub record IsRound (o : Options) (entries : List Entry) (r : Round) : Type 0 where
    pub covers :
        (p : Text → Bool)
        → count p (seated_bots r.pairings) + count p r.byes
          ≡ count (λ (e : Entry). p e.bot_id) entries
    pub odd_bye : length r.byes ≡ length entries % 2
    pub numbered : NumberedFrom 0 r.pairings
    pub no_rematch : FreshOr (All (New entries (chronicle o.history)) r.pairings) r.warnings

  -- The pool that is left by the choice of a bye.
  record IsPool (ps : List Participant) (r : Option Participant × List Participant) : Type 0 where
    distinct : Distinct r.1
    even : Even (length r.1)
    shared :
        (p : Text → Bool)
        → count (λ x. p (bot x)) r.1 + count p (bye_ids r.0) ≡ count (λ x. p (bot x)) ps
    odd_bye : length (bye_ids r.0) ≡ length ps % 2

  Selection-IsPool :
      (ps : List Participant) (r : Option Participant × List Participant)
      → Distinct ps
      → Selection locale_compare ps r
      → IsPool ps r
  Selection-IsPool ps r d (nobody e same) = rw same (record {
    distinct = d;
    even = (length ps / 2, omega arith);
    shared = λ p. omega arith;
    odd_bye = sym e;
  })
  Selection-IsPool ps r d (somebody b e same fair) = rw same (record {
    distinct = Distinct-filter _ ps d;
    even = (
      length (without ps b.bot_id) / 2,
      omega (arith, length-count ps, length-count (without ps b.bot_id), fair.leaves (λ _. true)),
    );
    shared = λ p. omega (arith, fair.leaves (λ x. p (bot x)));
    odd_bye = sym e;
  })

  -- The rest of a round, once the entries have been let through.
  abbrev after_entries : Options → List Entry → Outcome Round
  after_entries o entries =
      let matches = chronicle o.history in
      let selected =
        select_fair_bye locale_compare (assemble_participants entries o.standings matches) in
      match_pool locale_compare matches (sort_pool_descending locale_compare selected.1)
      >>= λ paired. done (record {
        pairings = seat_pairs entries 0 paired.0;
        byes = bye_ids selected.0;
        warnings = paired.1;
      })

  round_of :
      (o : Options) (entries : List Entry) (p : Participant) (ps : List Participant)
      → assemble_participants entries o.standings (chronicle o.history) ≡ p ∷ ps
      → Distinct (p ∷ ps)
      → (r : Round) × (after_entries o entries ≡ done r) × IsRound o entries r
  unfolding sort_pool_descending
  round_of o entries p ps e d =
      let matches = chronicle o.history in
      let selected = select_fair_bye locale_compare (p ∷ ps) in
      let pool =
        Selection-IsPool (p ∷ ps) selected d (select_fair_bye-Selection locale_compare p ps d) in
      let cmp = strongest_first locale_compare in
      let (k, twice) = pool.even in
      let m =
        match_pool-IsMatched matches (sort_by cmp selected.1)
          (DistinctBy-sort_by bot cmp selected.1 pool.distinct)
          (k, length-sort_by cmp selected.1 ∙ twice) in
      let everybody = λ (q : Text → Bool).
        ap (count (λ x. q (bot x))) (sym e) ∙ assemble-count q entries o.standings matches in
      (
        record {
          pairings = seat_pairs entries 0 m.pairs;
          byes = bye_ids selected.0;
          warnings = m.warnings;
        },
        rw e (rw m.result refl),
        record {
          covers = λ q. omega (
            arith,
            seat_pairs-count entries q 0 m.pairs,
            m.covers (λ x. q (bot x)),
            count-sort_by (λ x. q (bot x)) cmp selected.1,
            pool.shared q,
            everybody q,
          );
          odd_bye =
              pool.odd_bye
              ∙ ap (λ (n : ℕ). n % 2)
                  (length-count (p ∷ ps) ∙ everybody (λ _. true) ∙ sym (length-count entries));
          numbered = seat_pairs-NumberedFrom entries 0 m.pairs;
          no_rematch =
              FreshOr-map _ _ m.warnings (seat_pairs-New entries matches 0 m.pairs) m.fresh;
        },
      )

  List-cases :
      (ps : List Participant)
      → (ps ≡ []) ⊎ ((p : Participant) × (qs : List Participant) × (ps ≡ p ∷ qs))
  List-cases [] = inl refl
  List-cases (p ∷ qs) = inr (p, qs, refl)

  -- The checks of a round, and the rest of it.
  abbrev checked : Sent → Sent → Outcome (List Entry) → (List Entry → Outcome Round) → Outcome Round
  checked number rounds entered rest = do
    ensure (is_integer number) round_number_not_integer
    ensure (is_integer rounds) round_count_not_integer
    ensure (leb 1 (natural rounds)) round_count_low
    ensure (leb 1 (natural number) && leb (natural number) (natural rounds)) round_number_outside
    entries ← entered
    rest entries

  checked-done :
      (n c : ℕ) (number rounds : Sent) (entered : Outcome (List Entry)) (entries : List Entry)
      (rest : List Entry → Outcome Round)
      → entered ≡ done entries
      → number ≡ whole (pos n)
      → rounds ≡ whole (pos c)
      → 1 ≤ n
      → n ≤ c
      → checked number rounds entered rest ≡ rest entries
  checked-done n c number rounds entered entries rest e en ec low high =
      let one_le : leb 1 n ≡ true = ground arith in
      let one_le' : leb 1 c ≡ true = ground arith in
      let within : leb n c ≡ true = ground arith in
      rw (e, en, ec) (rw (one_le, one_le', within) refl)

  -- With entries that are let through and a whole round number from 1 to the whole round count, the
  -- round is made: everybody who has entered has one seat or the bye, which is given for an odd number
  -- of entries only; the pairings are numbered from 0; and either there is no warning and no pair has
  -- met before, or the first warning is that of the fallback.
  pub pair_swiss_round-IsRound :
      (o : Options) (entries : List Entry) (n c : ℕ)
      → normalize_swiss_entries locale_compare o.entries ≡ done entries
      → o.round_number ≡ whole (pos n)
      → o.round_count ≡ whole (pos c)
      → 1 ≤ n
      → n ≤ c
      → (r : Round) × (pair_swiss_round locale_compare o ≡ done r) × IsRound o entries r
  unfolding pair_swiss_round
  pair_swiss_round-IsRound o entries n c e en ec low high =
      let (d, two) = normalize-Distinct locale_compare o.entries entries e in
      let (r, made, good) = go d two in
      (
        r,
        checked-done n c o.round_number o.round_count
              (normalize_swiss_entries locale_compare o.entries) entries (after_entries o) e en ec
              low high
            ∙ made,
        good,
      )
    where
      participants : List Participant
      participants = assemble_participants entries o.standings (chronicle o.history)

      go :
          DistinctBy entry_bot entries
          → 2 ≤ length entries
          → (r : Round) × (after_entries o entries ≡ done r) × IsRound o entries r
      go d two = elim (List-cases participants) [
        | inl f ↦ absurd (
            omega (
              arith,
              ap (count (λ x. true)) f,
              assemble-count (λ _. true) entries o.standings (chronicle o.history),
              length-count entries,
            ))
        | inr (p, ps, f) ↦
            round_of o entries p ps f
              (subst Distinct f (assemble-Distinct entries o.standings (chronicle o.history) d))
      ]
