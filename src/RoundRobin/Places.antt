-- ===== src/RoundRobin/Places.antt =====
-- The places of the circle, at the tables of a round and after it.
use ottv.Prelude.{
  ℕ, zero, suc, ◌+◌, ◌-◌, ◌≤◌, ◌<◌, ◌≡◌, refl, Bool, true, false, none, some, List, [], ◌∷◌, ◌++◌,
  map, All, count, length, arith, if◌then◌else◌,
}
use ottv.Names.{Text}
use ottv.RoundRobin.{Place, place_at, last_first, rotate}

-- How much of a test stands at a place, in the circle, and at the places from one on.
abbrev pub weight : (Text → Bool) → Place → ℕ
weight p none = 0
weight p (some id) = if p id then 1 else 0

abbrev pub circle_sum : (Text → Bool) → List Place → ℕ
circle_sum p [] = 0
circle_sum p (x ∷ xs) = weight p x + circle_sum p xs

abbrev pub span : (Text → Bool) → List Place → ℕ → ℕ → ℕ
span p c i zero = 0
span p c i (suc n) = weight p (place_at c i) + span p c (suc i) n

-- The places opposite to those from `i` on.
abbrev pub back : (Text → Bool) → List Place → ℕ → ℕ → ℕ
back p c i zero = 0
back p c i (suc n) = weight p (place_at c (length c - 1 - i)) + back p c (suc i) n

module _ (p : Text → Bool) where
  span-add :
      (c : List Place) (i j a b n : ℕ)
      → j ≡ i + a
      → n ≡ a + b
      → span p c i a + span p c j b ≡ span p c i n
  span-add c i j zero b n e f =
      let same : j ≡ i = omega arith in
      let same' : n ≡ b = omega arith in rw (same, same') (omega arith)
  span-add c i j (suc a) b zero e f = absurd (omega arith)
  span-add c i j (suc a) b (suc n) e f =
      omega (arith, span-add c (suc i) j a b n (omega arith) (omega arith))

  span-shift : (x : Place) (c : List Place) (i n : ℕ) → span p (x ∷ c) (suc i) n ≡ span p c i n
  span-shift x c i zero = refl
  span-shift x c i (suc n) = omega (arith, span-shift x c (suc i) n)

  span-all : (c : List Place) → span p c 0 (length c) ≡ circle_sum p c
  span-all [] = refl
  span-all (x ∷ c) = omega (arith, span-shift x c 0 (length c), span-all c)

  back-span : (c : List Place) (i k j : ℕ) → j + i + k ≡ length c → back p c i k ≡ span p c j k
  back-span c i zero j h = refl
  back-span c i (suc k) j h =
      let at : length c - 1 - i ≡ j + k = omega arith in
      rw at (
        omega (
          arith,
          back-span c (suc i) k j (omega arith),
          span-add c j (j + k) k 1 (suc k) refl (omega arith),
        ))

  -- The tables of a round hold the circle, when it has an even number of places.
  pub tables-sum :
      (c : List Place) (k : ℕ) → k + k ≤ length c → span p c 0 k + back p c 0 k ≤ circle_sum p c
  tables-sum c k h =
      let m = length c - (k + k) in
      omega (
        arith,
        back-span c 0 k (k + m) (omega arith),
        span-add c 0 k k m (k + m) (omega arith) refl,
        span-add c 0 (k + m) (k + m) k (length c) (omega arith) (omega arith),
        span-all c,
      )

  -- With an even number of places the tables hold just the circle.
  pub tables-all :
      (c : List Place) (k : ℕ) → k + k ≡ length c → span p c 0 k + back p c 0 k ≡ circle_sum p c
  tables-all c k h = omega (
    arith,
    back-span c 0 k k (omega arith),
    span-add c 0 k k k (length c) (omega arith) (omega arith),
    span-all c,
  )

  last_first-sum : (ps : List Place) → circle_sum p (last_first ps) ≡ circle_sum p ps
  unfolding last_first
  last_first-sum [] = refl
  last_first-sum (x ∷ []) = refl
  last_first-sum (x ∷ y ∷ ps) = go (last_first (y ∷ ps)) (last_first-sum (y ∷ ps))
    where
      go :
          (qs : List Place)
          → circle_sum p qs ≡ circle_sum p (y ∷ ps)
          → circle_sum p (elim qs [ [] ↦ x ∷ [] | ◌∷◌ l rest ↦ l ∷ x ∷ rest ])
            ≡ circle_sum p (x ∷ y ∷ ps)
      go [] e = omega (arith, e)
      go (l ∷ rest) e = omega (arith, e)

  pub rotate-sum : (c : List Place) → circle_sum p (rotate c) ≡ circle_sum p c
  rotate-sum [] = refl
  rotate-sum (x ∷ c) = omega (arith, last_first-sum c)

  pub somes-sum :
      (ids : List Text) (rest : List Place)
      → circle_sum p (map some ids ++ rest) ≡ count p ids + circle_sum p rest
  somes-sum [] rest = omega arith
  somes-sum (id ∷ ids) rest = omega (arith, somes-sum ids rest)

-- Places that are all bots, which the rotation keeps.
abbrev pub is_bot : Place → Bool
is_bot none = false
is_bot (some id) = true

abbrev pub AllBots : List Place → Type 0
AllBots c = All (λ x. is_bot x ≡ true) c

pub place_at-is_bot :
    (c : List Place) (i : ℕ) → i < length c → AllBots c → is_bot (place_at c i) ≡ true
place_at-is_bot [] i h a = absurd (omega arith)
place_at-is_bot (x ∷ c) zero h (b, a) = b
place_at-is_bot (x ∷ c) (suc i) h (b, a) = place_at-is_bot c i (omega arith) a

abbrev Same : List Place → List Place → Type 0
Same ps qs = (length qs ≡ length ps) × (AllBots ps → AllBots qs)

last_first-Same : (ps : List Place) → Same ps (last_first ps)
unfolding last_first
last_first-Same [] = (refl, λ a. a)
last_first-Same (x ∷ []) = (refl, λ a. a)
last_first-Same (x ∷ y ∷ ps) = go (last_first (y ∷ ps)) (last_first-Same (y ∷ ps))
  where
    go :
        (qs : List Place)
        → Same (y ∷ ps) qs
        → Same (x ∷ y ∷ ps) (elim qs [ [] ↦ x ∷ [] | ◌∷◌ l rest ↦ l ∷ x ∷ rest ])
    go [] (e, f) = absurd (omega (arith, e))
    go (l ∷ rest) (e, f) = (omega (arith, e), λ (b, a). let (c, d) = f a in (c, (b, d)))

pub length-rotate : (c : List Place) → length (rotate c) ≡ length c
length-rotate [] = refl
length-rotate (x ∷ c) = omega (arith, (last_first-Same c).0)

pub rotate-AllBots : (c : List Place) → AllBots c → AllBots (rotate c)
rotate-AllBots [] a = a
rotate-AllBots (x ∷ c) (b, a) = (b, (last_first-Same c).1 a)

pub somes-AllBots : (ids : List Text) → AllBots (map some ids ++ [])
somes-AllBots [] = tt
somes-AllBots (id ∷ ids) = (refl, somes-AllBots ids)

pub length-somes : (ids : List Text) → length {A = Place} (map some ids ++ []) ≡ length ids
length-somes [] = refl
length-somes (id ∷ ids) = omega (arith, length-somes ids)
