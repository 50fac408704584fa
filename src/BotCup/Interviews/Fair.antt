-- ===== src/BotCup/Interviews/Fair.antt =====
-- Who is let into the Top 4.
use Prim.Native.Nat.{min}
use ottv.Prelude.{
  ℕ, zero, suc, ◌+◌, ◌≡◌, ◌↔◌, ◌∙◌, sym, refl, true, false, not, List, [], ◌∷◌, ◌++◌, leb, length,
  filter, length-append, arith, inl, inr, Bool-cases,
}
use mathlib.Core.List.{append-nil, append_assoc}
use ottv.Names.{Text}
use ottv.BotCup.Interviews.{
  Interview, is_fail, is_pass, choose_four, not_failed, TopFour, top_four_after_interviews,
}

-- The first `n` of a list of teams.
abbrev pub first_teams : ℕ → List Text → List Text
first_teams zero ids = []
first_teams (suc n) [] = []
first_teams (suc n) (id ∷ ids) = id ∷ first_teams n ids

module _ (interviews : Text → Interview) where
  abbrev pub passed : List Text → List Text
  passed ids = filter (λ id. is_pass (interviews id)) ids

  abbrev pub not_passed : List Text → List Text
  not_passed ids = filter (λ id. not (is_pass (interviews id))) ids

  -- The first `k` teams that have not failed.
  abbrev top : ℕ → List Text → List Text
  top k ids = first_teams k (not_failed interviews ids)

  pair_eq :
      (a a' b b' : List Text) → a ≡ a' → b ≡ b' → ◌≡◌ {A = List Text × List Text} (a, b) (a', b')
  pair_eq a a' b b' e f = rw (e, f) refl

  -- The loop takes the teams that have not failed, up to four in all.
  choose_four-top :
      (k : ℕ) (seeded waiting ranking : List Text)
      → length seeded + length waiting + k ≡ 4
      → choose_four interviews seeded waiting ranking
        ≡ (seeded ++ passed (top k ranking), waiting ++ not_passed (top k ranking))
  unfolding choose_four
  choose_four-top zero seeded waiting [] h =
      pair_eq _ _ _ _ (sym (append-nil seeded)) (sym (append-nil waiting))
  choose_four-top (suc k) seeded waiting [] h =
      pair_eq _ _ _ _ (sym (append-nil seeded)) (sym (append-nil waiting))
  choose_four-top zero seeded waiting (id ∷ ids) h =
      let full : leb 4 (length seeded + length waiting) ≡ true = ground arith in
      rw full (pair_eq _ _ _ _ (sym (append-nil seeded)) (sym (append-nil waiting)))
  choose_four-top (suc k) seeded waiting (id ∷ ids) h =
      let free : leb 4 (length seeded + length waiting) ≡ false = ground arith in
      rw free (elim (Bool-cases (is_fail (interviews id))) [
        | inl e ↦ rw e (choose_four-top (suc k) seeded waiting ids h)
        | inr e ↦ rw e (elim (Bool-cases (is_pass (interviews id))) [
          | inl f ↦ rw f (
              choose_four-top k (seeded ++ id ∷ []) waiting ids
                (omega (arith, length-append seeded (id ∷ [])))
              ∙ pair_eq _ _ _ _ (append_assoc seeded (id ∷ []) (passed (top k ids))) refl)
          | inr f ↦ rw f (
              choose_four-top k seeded (waiting ++ id ∷ []) ids
                (omega (arith, length-append waiting (id ∷ [])))
              ∙ pair_eq _ _ _ _ refl (append_assoc waiting (id ∷ []) (not_passed (top k ids))))
        ])
      ])

  length-split : (ids : List Text) → length (passed ids) + length (not_passed ids) ≡ length ids
  length-split [] = refl
  length-split (id ∷ ids) = elim (Bool-cases (is_pass (interviews id))) [
    | inl e ↦ rw e (omega (arith, length-split ids))
    | inr e ↦ rw e (omega (arith, length-split ids))
  ]

  length-first_teams : (n : ℕ) (ids : List Text) → length (first_teams n ids) ≡ min n (length ids)
  length-first_teams zero ids = omega arith
  length-first_teams (suc n) [] = omega arith
  length-first_teams (suc n) (id ∷ ids) = omega (arith, length-first_teams n ids)

  empty_iff : (ids : List Text) → (length ids ≡ 0) ↔ (ids ≡ [])
  empty_iff [] = (λ h. refl, λ h. refl)
  empty_iff (id ∷ ids) = (λ h. absurd (omega arith), λ h. absurd (cc))

  -- The four best of the ranking that have not failed, as far as there are as many: those that have
  -- passed are seeded, in the order of the ranking, the others are waited for, and it is ready when
  -- nobody is waited for.
  pub record IsTopFour (ranking : List Text) (r : TopFour) : Type 0 where
    seeded : r.seeded ≡ passed (top 4 ranking)
    waiting_for : r.waiting_for ≡ not_passed (top 4 ranking)
    ready : (r.ready ≡ true) ↔ (r.waiting_for ≡ [])

  -- Of the ranking, the first four teams that have not failed, or all if they are fewer, are chosen:
  -- those that have passed are seeded, in the order of the ranking, the others are waited for, and the
  -- result is ready exactly when nobody is waited for.
  pub top_four_after_interviews-IsTopFour :
      (ranking : List Text) → IsTopFour ranking (top_four_after_interviews interviews ranking)
  unfolding top_four_after_interviews
  top_four_after_interviews-IsTopFour ranking =
      let chosen = choose_four-top 4 [] [] ranking refl in
      let n = length-split (top 4 ranking) ∙ length-first_teams 4 (not_failed interviews ranking) in
      let (there, back) = empty_iff (not_passed (top 4 ranking)) in
      rw chosen (record {
        seeded = refl;
        waiting_for = refl;
        ready = (λ h. there (ground arith), λ h. let z = back h in ground arith);
      })
