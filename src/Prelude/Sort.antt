-- ===== src/Prelude/Sort.antt =====
-- `Array.prototype.sort` by a comparator, which is stable, and the elements of a list, counted.
use Prim.Native.Nat.{ℕ, suc, ◌+◌, Ordering}
use mathlib.Core.Path.{◌≡◌, refl, ap, ◌∙◌}
use mathlib.Core.Logic.{inl, inr}
use mathlib.Core.Bool.{Bool, true, false}
use mathlib.Core.List.{List, [], ◌∷◌, ◌++◌}
use native.Mathlib.Omega.{arith}
use ottv.Prelude.Tests.{if◌then◌else◌, Bool-cases}
use ottv.Prelude.Lists.{All, filter, length}
use ottv.Prelude.Searches.{All-map_of}

-- Comparators that go on to the next key where one finds no difference.
infixr 20 ◌then_by◌
abbrev pub ◌then_by◌ : Ordering → Ordering → Ordering
Ordering.eq then_by o = o
Ordering.lt then_by o = Ordering.lt
Ordering.gt then_by o = Ordering.gt

abbrev pub is_gt : Ordering → Bool
is_gt Ordering.gt = true
is_gt Ordering.lt = false
is_gt Ordering.eq = false

module _ {ℓ} {A : Type ℓ} where
  abbrev pub insert_by : (A → A → Ordering) → A → List A → List A
  insert_by cmp x [] = x ∷ []
  insert_by cmp x (y ∷ ys) =
      let rest = insert_by cmp x ys in if is_gt (cmp x y) then y ∷ rest else x ∷ y ∷ ys

  -- An element that the comparator finds equal to later ones stays before them.
  unfoldable pub sort_by : (A → A → Ordering) → List A → List A
  sort_by cmp [] = []
  sort_by cmp (x ∷ xs) = insert_by cmp x (sort_by cmp xs)

  -- How many elements a test holds of. Two lists have the same elements, as often, if they agree on
  -- every test.
  abbrev pub count : (A → Bool) → List A → ℕ
  count p [] = 0
  count p (x ∷ xs) = (if p x then 1 else 0) + count p xs

  pub count-append : (p : A → Bool) (xs ys : List A) → count p (xs ++ ys) ≡ count p xs + count p ys
  count-append p [] ys = omega arith
  count-append p (x ∷ xs) ys = omega (arith, count-append p xs ys)

  pub count_of_none : (p : A → Bool) (xs : List A) → All (λ x. p x ≡ false) xs → count p xs ≡ 0
  count_of_none p [] a = refl
  count_of_none p (x ∷ xs) (e, a) = rw e (omega (arith, count_of_none p xs a))

  pub none_of_count : (p : A → Bool) (xs : List A) → count p xs ≡ 0 → All (λ x. p x ≡ false) xs
  none_of_count p [] h = tt
  none_of_count p (x ∷ xs) h = elim (Bool-cases (p x)) [
    | inl e ↦ let w : 1 + count p xs ≡ 0 = rw e at h in absurd (omega arith)
    | inr e ↦ (e, none_of_count p xs (ground arith))
  ]

  -- Nothing that the filter keeps passes the test.
  pub All-filter_of :
      (f p : A → Bool) (xs : List A)
      → All (λ x. p x ≡ false) (filter f xs)
      → All (λ x. f x ≡ true → p x ≡ false) xs
  All-filter_of f p [] a = tt
  All-filter_of f p (x ∷ xs) a = elim (Bool-cases (f x)) [
    | inl e ↦
        let b : All (λ y. p y ≡ false) (x ∷ filter f xs) = rw e at a in
        (λ _. b.0, All-filter_of f p xs b.1)
    | inr e ↦ (λ h. absurd (cc), All-filter_of f p xs (rw e at a))
  ]

  count-insert_by :
      (p : A → Bool) (cmp : A → A → Ordering) (x : A) (ys : List A)
      → count p (insert_by cmp x ys) ≡ (if p x then 1 else 0) + count p ys
  count-insert_by p cmp x [] = refl
  count-insert_by p cmp x (y ∷ ys) = elim (Bool-cases (is_gt (cmp x y))) [
    | inl e ↦ rw e (omega (arith, count-insert_by p cmp x ys))
    | inr e ↦ rw e refl
  ]

  pub count-sort_by :
      (p : A → Bool) (cmp : A → A → Ordering) (xs : List A) → count p (sort_by cmp xs) ≡ count p xs
  unfolding sort_by
  count-sort_by p cmp [] = refl
  count-sort_by p cmp (x ∷ xs) =
      omega (arith, count-insert_by p cmp x (sort_by cmp xs), count-sort_by p cmp xs)

  length-insert_by :
      (cmp : A → A → Ordering) (x : A) (ys : List A) → length (insert_by cmp x ys) ≡ suc (length ys)
  length-insert_by cmp x [] = refl
  length-insert_by cmp x (y ∷ ys) = elim (Bool-cases (is_gt (cmp x y))) [
    | inl e ↦ rw e (ap suc (length-insert_by cmp x ys))
    | inr e ↦ rw e refl
  ]

  pub length-sort_by : (cmp : A → A → Ordering) (xs : List A) → length (sort_by cmp xs) ≡ length xs
  unfolding sort_by
  length-sort_by cmp [] = refl
  length-sort_by cmp (x ∷ xs) =
      length-insert_by cmp x (sort_by cmp xs) ∙ ap suc (length-sort_by cmp xs)

module _ {ℓ κ} {A : Type ℓ} (P : A → Type κ) (cmp : A → A → Ordering) where
  pub All-insert_by : (x : A) (ys : List A) → P x → All P ys → All P (insert_by cmp x ys)
  All-insert_by x [] p a = (p, a)
  All-insert_by x (y ∷ ys) p (q, a) = elim (Bool-cases (is_gt (cmp x y))) [
    | inl e ↦ rw e (q, All-insert_by x ys p a)
    | inr e ↦ rw e (p, (q, a))
  ]

  pub All-sort_by : (xs : List A) → All P xs → All P (sort_by cmp xs)
  unfolding sort_by
  All-sort_by [] a = tt
  All-sort_by (x ∷ xs) (p, a) = All-insert_by x (sort_by cmp xs) p (All-sort_by xs a)

-- Every element stands in the relation to those behind it.
abbrev pub Ordered {ℓ κ} : {A : Type ℓ} (R : A → A → Type κ) → List A → Type κ
Ordered R [] = Unit
Ordered R (x ∷ xs) = All (R x) xs × Ordered R xs

-- The head of a sorted list stands in a relation to every element, where the comparator decides
-- that relation and the relation is transitive.
module _ {ℓ κ} {A : Type ℓ} (R : A → A → Type κ) (cmp : A → A → Ordering)
    (below : (x y : A) → is_gt (cmp x y) ≡ false → R x y)
    (above : (x y : A) → is_gt (cmp x y) ≡ true → R y x)
    (trans : (x y z : A) → R x y → R y z → R x z) where
  -- The head of the list stands in the relation to the rest.
  abbrev pub Heads : List A → Type κ
  Heads [] = Unit
  Heads (x ∷ xs) = All (R x) xs

  Heads-insert_by : (x : A) (ys : List A) → Heads ys → Heads (insert_by cmp x ys)
  Heads-insert_by x [] h = tt
  Heads-insert_by x (y ∷ ys) h = elim (Bool-cases (is_gt (cmp x y))) [
    | inl e ↦ rw e (All-insert_by (R y) cmp x ys (above x y e) h)
    | inr e ↦
        let first : R x y = below x y e in
        rw e (first, All-map_of (R y) (R x) (λ z q. trans x y z first q) ys h)
  ]

  pub Heads-sort_by : (xs : List A) → Heads (sort_by cmp xs)
  unfolding sort_by
  Heads-sort_by [] = tt
  Heads-sort_by (x ∷ xs) = Heads-insert_by x (sort_by cmp xs) (Heads-sort_by xs)

  Ordered-insert_by : (x : A) (ys : List A) → Ordered R ys → Ordered R (insert_by cmp x ys)
  Ordered-insert_by x [] o = (tt, tt)
  Ordered-insert_by x (y ∷ ys) (a, o) = elim (Bool-cases (is_gt (cmp x y))) [
    | inl e ↦ rw e (All-insert_by (R y) cmp x ys (above x y e) a, Ordered-insert_by x ys o)
    | inr e ↦
        let first : R x y = below x y e in
        rw e ((first, All-map_of (R y) (R x) (λ z q. trans x y z first q) ys a), (a, o))
  ]

  pub Ordered-sort_by : (xs : List A) → Ordered R (sort_by cmp xs)
  unfolding sort_by
  Ordered-sort_by [] = tt
  Ordered-sort_by (x ∷ xs) = Ordered-insert_by x (sort_by cmp xs) (Ordered-sort_by xs)
