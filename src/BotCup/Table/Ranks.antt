-- ===== src/BotCup/Table/Ranks.antt =====
-- The order of the tables.
use Prim.Native.Nat.{Ordering}
use ottv.Prelude.{
  ℕ, suc, ◌≤◌, ◌≡◌, ◌∙◌, ap, refl, sort_by, Bool, true, false, List, [], ◌∷◌, All, map, count,
  count-sort_by, Ordered, Ordered-sort_by, is_gt, arith, if◌then◌else◌,
}
use ottv.BotCup.Table.{
  CupTeam, CupPairing, Row, base_table, Keyed, Ranked, number_from, rank_by, round_robin_order,
  round_robin_keys, round_robin_standings, swiss_order, swiss_keys, swiss_standings,
}

module _ {Double : Type 0} (zero_double : Double) (plus : Double → Double → Double)
    (weighted : ℕ → ℕ → ℕ → Double) (compare_double : Double → Double → Ordering) where
  abbrev K : Type 0
  K = Keyed zero_double plus weighted compare_double

  abbrev R : Type 0
  R = Ranked zero_double plus weighted compare_double

  -- A ranking of the rows of a table: every row once, by points from the most down, and the ranks
  -- count from 1.
  abbrev AtLeast : R → R → Type 0
  AtLeast x y = y.keyed.row.points ≤ x.keyed.row.points

  abbrev Descends : K → K → Type 0
  Descends x y = y.row.points ≤ x.row.points

  abbrev RankedFrom : ℕ → List R → Type 0
  RankedFrom i [] = Unit
  RankedFrom i (r ∷ rs) = (r.rank ≡ i) × RankedFrom (suc i) rs

  pub record IsRanking (rows : List Row) (rs : List R) : Type 0 where
    covers : (p : Row → Bool) → count (λ (r : R). p r.keyed.row) rs ≡ count p rows
    descending : Ordered AtLeast rs
    numbered : RankedFrom 1 rs

  number_from-RankedFrom : (i : ℕ) (ks : List K) → RankedFrom i (number_from _ _ _ _ i ks)
  number_from-RankedFrom i [] = tt
  number_from-RankedFrom i (k ∷ ks) = (refl, number_from-RankedFrom (suc i) ks)

  number_from-count :
      (p : Row → Bool) (i : ℕ) (ks : List K)
      → count (λ (r : R). p r.keyed.row) (number_from _ _ _ _ i ks) ≡ count (λ (k : K). p k.row) ks
  number_from-count p i [] = refl
  number_from-count p i (k ∷ ks) = omega (arith, number_from-count p (suc i) ks)

  number_from-All :
      (n : ℕ) (i : ℕ) (ks : List K)
      → All (λ (k : K). k.row.points ≤ n) ks
      → All (λ (r : R). r.keyed.row.points ≤ n) (number_from _ _ _ _ i ks)
  number_from-All n i [] a = tt
  number_from-All n i (k ∷ ks) (p, a) = (p, number_from-All n (suc i) ks a)

  number_from-Ordered :
      (i : ℕ) (ks : List K) → Ordered Descends ks → Ordered AtLeast (number_from _ _ _ _ i ks)
  number_from-Ordered i [] o = tt
  number_from-Ordered i (k ∷ ks) (a, o) =
      (number_from-All k.row.points (suc i) ks a, number_from-Ordered (suc i) ks o)

  -- Rows with their keys, ranked by an order that looks at the points first.
  rank_by-IsRanking :
      (cmp : K → K → Ordering) (keys : Row → K) (rows : List Row)
      → ((x y : K) → is_gt (cmp x y) ≡ false → Descends x y)
      → ((x y : K) → is_gt (cmp x y) ≡ true → Descends y x)
      → ((row : Row) → (keys row).row ≡ row)
      → IsRanking rows (rank_by _ _ _ _ cmp (map keys rows))
  unfolding rank_by
  rank_by-IsRanking cmp keys rows below above same = record {
    covers = λ p.
        number_from-count p 1 (sort_by cmp (map keys rows))
        ∙ count-sort_by (λ (k : K). p k.row) cmp (map keys rows)
        ∙ keyed p rows;
    descending =
        number_from-Ordered 1 (sort_by cmp (map keys rows))
          (Ordered-sort_by Descends cmp below above (λ x y z q r. omega arith) (map keys rows));
    numbered = number_from-RankedFrom 1 (sort_by cmp (map keys rows));
  }
    where
      keyed :
          (p : Row → Bool) (rs : List Row) → count (λ (k : K). p k.row) (map keys rs) ≡ count p rs
      keyed p [] = refl
      keyed p (r ∷ rs) =
          omega (arith, keyed p rs, ap {B = ℕ} (λ (q : Row). if p q then 1 else 0) (same r))

  -- The table of the round robin, whatever the arithmetic of doubles, has every row of the base table
  -- once, by points from the most down, with the ranks from 1.
  pub round_robin_standings-IsRanking :
      (teams : List CupTeam) (pairings : List CupPairing)
      → IsRanking
          (base_table teams pairings)
          (round_robin_standings zero_double plus weighted compare_double teams pairings)
  unfolding round_robin_standings
  round_robin_standings-IsRanking teams pairings =
      rank_by-IsRanking (round_robin_order zero_double plus weighted compare_double)
        (round_robin_keys zero_double plus weighted compare_double (base_table teams pairings)
          pairings)
        (base_table teams pairings) (λ x y h. ground arith) (λ x y h. ground arith) (λ row. refl)

  -- The Swiss table, whatever the arithmetic of doubles, has every row of the base table once, by
  -- points from the most down, with the ranks from 1.
  pub swiss_standings-IsRanking :
      (teams : List CupTeam) (pairings : List CupPairing)
      → IsRanking
          (base_table teams pairings)
          (swiss_standings zero_double plus weighted compare_double teams pairings)
  unfolding swiss_standings
  swiss_standings-IsRanking teams pairings =
      rank_by-IsRanking (swiss_order zero_double plus weighted compare_double)
        (swiss_keys zero_double plus weighted compare_double (base_table teams pairings) pairings)
        (base_table teams pairings) (λ x y h. ground arith) (λ x y h. ground arith) (λ row. refl)
