-- ===== src/Prelude/Searches.antt =====
-- Predicates of every element, under the searches of arrays.
use mathlib.Core.Path.{◌≡◌, refl, subst}
use mathlib.Core.Logic.{inl, inr}
use mathlib.Core.Bool.{Bool, true, false}
use mathlib.Core.Option.{some}
use mathlib.Core.List.{List, [], ◌∷◌, ◌++◌, map}
use native.Mathlib.Omega.{arith}
use ottv.Prelude.Tests.{Bool-cases}
use ottv.Prelude.Lists.{All, filter, find?, any}

module _ {ℓ κ} {A : Type ℓ} (P : A → Type κ) where
  pub All-map_of {μ} :
      (Q : A → Type μ) → ((x : A) → P x → Q x) → (xs : List A) → All P xs → All Q xs
  All-map_of Q h [] a = tt
  All-map_of Q h (x ∷ xs) (p, a) = (h x p, All-map_of Q h xs a)

  pub All-filter : (f : A → Bool) (xs : List A) → All P xs → All P (filter f xs)
  All-filter f [] a = tt
  All-filter f (x ∷ xs) (p, a) = elim (Bool-cases (f x)) [
    | inl e ↦ rw e (p, All-filter f xs a)
    | inr e ↦ rw e (All-filter f xs a)
  ]

  pub All-find : (f : A → Bool) (xs : List A) {y : A} → All P xs → find? f xs ≡ some y → P y
  All-find f [] a h = cc
  All-find f (x ∷ xs) {y} (p, a) h = elim (Bool-cases (f x)) [
    | inl e ↦ let h' : some x ≡ some y = rw e at h in subst P (cc) p
    | inr e ↦ All-find f xs a (rw e at h)
  ]

  pub All-append : (xs ys : List A) → All P xs → All P ys → All P (xs ++ ys)
  All-append [] ys a b = b
  All-append (x ∷ xs) ys (p, a) b = (p, All-append xs ys a b)

module _ {ℓ} {A : Type ℓ} where
  pub find-holds : (f : A → Bool) (xs : List A) {y : A} → find? f xs ≡ some y → f y ≡ true
  find-holds f [] h = cc
  find-holds f (x ∷ xs) {y} h = ground (arith, find-holds f xs {y = y})

  -- A filter that keeps nothing.
  pub filter-nil : (f : A → Bool) (xs : List A) → filter f xs ≡ [] → All (λ x. f x ≡ false) xs
  filter-nil f [] h = tt
  filter-nil f (x ∷ xs) h = elim (Bool-cases (f x)) [
    | inl e ↦ absurd (cc (rw e at h))
    | inr e ↦ (e, filter-nil f xs (rw e at h))
  ]

  pub filter_of_none : (f : A → Bool) (xs : List A) → All (λ x. f x ≡ false) xs → filter f xs ≡ []
  filter_of_none f [] h = refl
  filter_of_none f (x ∷ xs) (e, h) = rw e (filter_of_none f xs h)

  -- A filter that keeps one element.
  pub filter-one :
      (f : A → Bool) (xs : List A) {y : A} → filter f xs ≡ y ∷ [] → All (λ x. f x ≡ true → x ≡ y) xs
  filter-one f [] h = tt
  filter-one f (x ∷ xs) {y} h = elim (Bool-cases (f x)) [
    | inl e ↦
        let h' : x ∷ filter f xs ≡ y ∷ [] = rw e at h in
        (λ _. cc, All-map_of _ _ (λ z n t. absurd (cc)) xs (filter-nil f xs (cc)))
    | inr e ↦ (λ t. absurd (cc), filter-one f xs (rw e at h))
  ]

  pub filter-holds : (f : A → Bool) (xs : List A) → All (λ x. f x ≡ true) (filter f xs)
  filter-holds f [] = tt
  filter-holds f (x ∷ xs) = elim (Bool-cases (f x)) [
    | inl e ↦ rw e (e, filter-holds f xs)
    | inr e ↦ rw e (filter-holds f xs)
  ]

  -- An element where a test holds.
  pub any-All :
      (f g : A → Bool) (xs : List A)
      → All (λ x. f x ≡ true → g x ≡ true) xs
      → any f xs ≡ true
      → any g xs ≡ true
  any-All f g [] a h = h
  any-All f g (x ∷ xs) (p, a) h = ground (arith, any-All f g xs a)

  pub any_of_find : (f : A → Bool) (xs : List A) {y : A} → find? f xs ≡ some y → any f xs ≡ true
  any_of_find f [] h = cc
  any_of_find f (x ∷ xs) {y} h = ground (arith, any_of_find f xs {y = y})

  pub any-elim {μ κ} :
      {C : Type μ} (P : A → Type κ) (f : A → Bool) (xs : List A)
      → ((x : A) → f x ≡ true → P x → C)
      → All P xs
      → any f xs ≡ true
      → C
  any-elim P f [] k a h = absurd (cc)
  any-elim P f (x ∷ xs) k (p, a) h = elim (Bool-cases (f x)) [
    | inl e ↦ k x e p
    | inr e ↦ any-elim P f xs k a (rw e at h)
  ]

  pub any_self :
      (f : A → A → Bool) (xs : List A)
      → ((x : A) → f x x ≡ true)
      → All (λ x. any (λ y. f y x) xs ≡ true) xs
  any_self f [] r = tt
  any_self f (x ∷ xs) r = (rw (r x), All-map_of _ _ (λ y h. ground arith) xs (any_self f xs r))

  pub All-zip {κ μ ν} :
      (P : A → Type κ) (Q : A → Type μ) (R : A → Type ν) (xs : List A)
      → ((x : A) → P x → Q x → R x)
      → All P xs
      → All Q xs
      → All R xs
  All-zip P Q R [] k a b = tt
  All-zip P Q R (x ∷ xs) k (p, a) (q, b) = (k x p q, All-zip P Q R xs k a b)

module _ {ℓ κ} {A : Type ℓ} {B : Type κ} where
  pub All-map {μ} :
      (P : B → Type μ) (f : A → B) (xs : List A) → All (λ x. P (f x)) xs → All P (map f xs)
  All-map P f [] a = tt
  All-map P f (x ∷ xs) (p, a) = (p, All-map P f xs a)

  pub any-map : (g : B → Bool) (f : A → B) (xs : List A) → any g (map f xs) ≡ any (λ x. g (f x)) xs
  any-map g f [] = refl
  any-map g f (x ∷ xs) = ground (arith, any-map g f xs)

pub All-of {ℓ κ} : {A : Type ℓ} (P : A → Type κ) → ((x : A) → P x) → (xs : List A) → All P xs
All-of P h [] = tt
All-of P h (x ∷ xs) = (h x, All-of P h xs)
