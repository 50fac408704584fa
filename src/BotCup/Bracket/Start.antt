-- ===== src/BotCup/Bracket/Start.antt =====
-- The first round of the knockout.
use ottv.Prelude.{
  ℕ, zero, suc, ◌+◌, ◌≤◌, ◌<◌, ◌≡◌, ◌∙◌, ◌⊎◌, refl, sym, ap, Bool, false, ◌&&◌, Option, none, some,
  List, [], ◌∷◌, leb, ltb, All, length, count, arith, inl, inr, Bool-cases,
}
use ottv.Names.{Text}
use ottv.BotCup.Gate.{nth}
use ottv.BotCup.Bracket.{
  Slot, round_of_16, semi, Fixture, bracket_16, bracket_4, fixtures_of, knockout_first_round,
}

-- The sides of the pairings.
abbrev pub seats : List Fixture → List (Option Text)
seats [] = []
seats (f ∷ fs) = f.high ∷ f.low ∷ seats fs

abbrev pub SlotsFrom : (ℕ → Slot) → ℕ → List Fixture → Type 0
SlotsFrom slot i [] = Unit
SlotsFrom slot i (f ∷ fs) = (f.slot ≡ slot (suc i)) × SlotsFrom slot (suc i) fs

-- The first `n` of the seeded teams.
abbrev pub first_seeds : ℕ → List Text → List (Option Text)
first_seeds zero ids = []
first_seeds (suc n) [] = []
first_seeds (suc n) (id ∷ ids) = some id ∷ first_seeds n ids

abbrev nths : List Text → ℕ → ℕ → List (Option Text)
nths ids i zero = []
nths ids i (suc n) = nth ids i ∷ nths ids (suc i) n

nths-shift : (id : Text) (ids : List Text) (i n : ℕ) → nths (id ∷ ids) (suc i) n ≡ nths ids i n
nths-shift id ids i zero = refl
nths-shift id ids i (suc n) =
    ap (λ (rest : List (Option Text)). nth ids i ∷ rest) (nths-shift id ids (suc i) n)

first_seeds-nths : (n : ℕ) (ids : List Text) → n ≤ length ids → first_seeds n ids ≡ nths ids 0 n
first_seeds-nths zero ids h = refl
first_seeds-nths (suc n) [] h = absurd (omega arith)
first_seeds-nths (suc n) (id ∷ ids) h =
    ap (λ (rest : List (Option Text)). some id ∷ rest)
      (first_seeds-nths n ids (omega arith) ∙ sym (nths-shift id ids 0 n))

-- The team of a seed; the first of the list has the seed 1.
abbrev pub team_of : List Text → ℕ → Option Text
team_of [] seed = none
team_of (id ∷ ids) zero = none
team_of (id ∷ ids) (suc zero) = some id
team_of (id ∷ ids) (suc (suc n)) = team_of ids (suc n)

nth-team_of : (ids : List Text) (n : ℕ) → nth ids n ≡ team_of ids (suc n)
nth-team_of [] n = refl
nth-team_of (id ∷ ids) zero = refl
nth-team_of (id ∷ ids) (suc n) = nth-team_of ids n

-- Each side of a pairing is the team of its seed.
abbrev pub AsSeeded : List Text → Fixture → Type 0
AsSeeded seeded f = (f.high ≡ team_of seeded f.high_seed) × (f.low ≡ team_of seeded f.low_seed)

-- Two seeds that meet in the first round of `n` teams.
abbrev pub Opposed : ℕ → Fixture → Type 0
Opposed n f = (f.high_seed + f.low_seed ≡ suc n) × (f.high_seed < f.low_seed)

-- A first round of `n` teams: the first `n` have a place each, the best meets the last, the second the
-- last but one, and so on, and the pairings are numbered from 1 in their slots.
pub record IsBracket (n : ℕ) (slot : ℕ → Slot) (seeded : List Text) (fs : List Fixture)
    : Type 0 where
  places : (p : Option Text → Bool) → count p (seats fs) ≡ count p (first_seeds n seeded)
  opposed : All (Opposed n) fs
  as_seeded : All (AsSeeded seeded) fs
  slots : SlotsFrom slot 0 fs

bracket_4-IsBracket :
    (seeded : List Text)
    → 4 ≤ length seeded
    → IsBracket 4 semi seeded (fixtures_of semi seeded 0 bracket_4)
unfolding fixtures_of
bracket_4-IsBracket seeded h = record {
  places = λ p. rw (first_seeds-nths 4 seeded h) (omega arith);
  opposed = ((refl, omega arith), ((refl, omega arith), tt));
  as_seeded = (
    (nth-team_of seeded 0, nth-team_of seeded 3),
    ((nth-team_of seeded 1, nth-team_of seeded 2), tt),
  );
  slots = (refl, (refl, tt));
}

bracket_16-IsBracket :
    (seeded : List Text)
    → 16 ≤ length seeded
    → IsBracket 16 round_of_16 seeded (fixtures_of round_of_16 seeded 0 bracket_16)
unfolding fixtures_of
bracket_16-IsBracket seeded h = record {
  places = λ p. rw (first_seeds-nths 16 seeded h) (omega arith);
  opposed = (
    (refl, omega arith),
    (
      (refl, omega arith),
      (
        (refl, omega arith),
        (
          (refl, omega arith),
          (
            (refl, omega arith),
            ((refl, omega arith), ((refl, omega arith), ((refl, omega arith), tt))),
          ),
        ),
      ),
    ),
  );
  as_seeded = (
    (nth-team_of seeded 0, nth-team_of seeded 15),
    (
      (nth-team_of seeded 7, nth-team_of seeded 8),
      (
        (nth-team_of seeded 4, nth-team_of seeded 11),
        (
          (nth-team_of seeded 3, nth-team_of seeded 12),
          (
            (nth-team_of seeded 2, nth-team_of seeded 13),
            (
              (nth-team_of seeded 5, nth-team_of seeded 10),
              (
                (nth-team_of seeded 6, nth-team_of seeded 9),
                ((nth-team_of seeded 1, nth-team_of seeded 14), tt),
              ),
            ),
          ),
        ),
      ),
    ),
  );
  slots = (refl, (refl, (refl, (refl, (refl, (refl, (refl, (refl, tt))))))));
}

-- With four seeded teams at least there is a first round: of sixteen when the size and the teams are
-- at least sixteen, and of four otherwise. The first sixteen or four teams have one place each, the
-- seeds of each pairing add up to one more than their number with the better one as the high seed, each
-- side is the team that stands at its seed in the list, and the pairings are numbered from 1. With
-- fewer than four teams there is none.
pub knockout_first_round-IsBracket :
    (seeded : List Text) (size : ℕ)
    → ((length seeded < 4) × (knockout_first_round seeded size ≡ []))
      ⊎ (((16 ≤ size)
            × (16 ≤ length seeded)
            × IsBracket 16 round_of_16 seeded (knockout_first_round seeded size))
          ⊎ ((4 ≤ length seeded)
              × ((size < 16) ⊎ (length seeded < 16))
              × IsBracket 4 semi seeded (knockout_first_round seeded size)))
unfolding knockout_first_round
knockout_first_round-IsBracket seeded size = elim (Bool-cases (ltb (length seeded) 4)) [
  | inl e ↦ rw e (inl (ground arith, refl))
  | inr e ↦
      let four : 4 ≤ length seeded = ground arith in
      rw e (elim (Bool-cases (leb 16 size && leb 16 (length seeded))) [
        | inl f ↦
            let many : 16 ≤ length seeded = ground arith in
            rw f (inr (inl (ground arith, many, bracket_16-IsBracket seeded many)))
        | inr f ↦ rw f (inr (inr (four, few f, bracket_4-IsBracket seeded four)))
      ])
]
  where
    few : (leb 16 size && leb 16 (length seeded)) ≡ false → (size < 16) ⊎ (length seeded < 16)
    few f = elim (Bool-cases (leb 16 size)) [
      | inl e ↦ inr (ground arith)
      | inr e ↦ inl (ground arith)
    ]
