-- ===== src/Swiss/Matching/Distinct.antt =====
-- Participants with distinct identifiers, and what is left when some are taken out.
use Prim.Native.Nat.{Ordering}
use ottv.Prelude.{
  ℕ, ◌+◌, ◌≡◌, refl, ap, ◌∙◌, Bool, false, List, [], ◌∷◌, All, All-map_of, All-zip, All-filter,
  All-map, All-insert_by, All-sort_by, insert_by, sort_by, is_gt, map, count, filter, arith, inl,
  inr, Bool-cases, Bool-ext, if◌then◌else◌,
}
use ottv.Names.{Text}
use ottv.Swiss.Types.{Participant, Pair, same_text, same_text_eq, same_text_refl}
use ottv.Swiss.Matching.{leave_out}

pub same_text_comm : (s t : Text) → same_text s t ≡ same_text t s
same_text_comm s t =
    Bool-ext _ _ (λ h. ap (same_text t) (same_text_eq s t h) ∙ same_text_refl t)
      (λ h. ap (same_text s) (same_text_eq t s h) ∙ same_text_refl s)

-- Values with identifiers.
module _ {ℓ} {A : Type ℓ} (id : A → Text) where
  abbrev pub ApartBy : A → A → Type 0
  ApartBy p q = same_text (id q) (id p) ≡ false

  abbrev pub DistinctBy : List A → Type 0
  DistinctBy [] = Unit
  DistinctBy (p ∷ ps) = All (ApartBy p) ps × DistinctBy ps

  pub DistinctBy-filter : (f : A → Bool) (ps : List A) → DistinctBy ps → DistinctBy (filter f ps)
  DistinctBy-filter f [] d = tt
  DistinctBy-filter f (p ∷ ps) (a, d) = elim (Bool-cases (f p)) [
    | inl e ↦ rw e (All-filter (ApartBy p) f ps a, DistinctBy-filter f ps d)
    | inr e ↦ rw e (DistinctBy-filter f ps d)
  ]

  DistinctBy-insert_by :
      (cmp : A → A → Ordering) (x : A) (ys : List A)
      → All (ApartBy x) ys
      → DistinctBy ys
      → DistinctBy (insert_by cmp x ys)
  DistinctBy-insert_by cmp x [] a d = (tt, tt)
  DistinctBy-insert_by cmp x (y ∷ ys) (z, a) (b, d) = elim (Bool-cases (is_gt (cmp x y))) [
    | inl e ↦ rw e (
      All-insert_by (ApartBy y) cmp x ys (same_text_comm (id x) (id y) ∙ z) b,
      DistinctBy-insert_by cmp x ys a d,
    )
    | inr e ↦ rw e ((z, a), (b, d))
  ]

  pub DistinctBy-sort_by :
      (cmp : A → A → Ordering) (xs : List A) → DistinctBy xs → DistinctBy (sort_by cmp xs)
  unfolding sort_by
  DistinctBy-sort_by cmp [] d = tt
  DistinctBy-sort_by cmp (x ∷ xs) (a, d) =
      DistinctBy-insert_by cmp x (sort_by cmp xs) (All-sort_by (ApartBy x) cmp xs a)
        (DistinctBy-sort_by cmp xs d)

pub DistinctBy-map {ℓ κ} :
    {A : Type ℓ} {B : Type κ} (id : A → Text) (id' : B → Text) (f : A → B)
    → ((x : A) → id' (f x) ≡ id x)
    → (xs : List A) → DistinctBy id xs
    → DistinctBy id' (map f xs)
DistinctBy-map id id' f h [] d = tt
DistinctBy-map id id' f h (x ∷ xs) (a, d) = (
  All-map (ApartBy id' (f x)) f xs (All-map_of (ApartBy id x) _ (λ y e. rw (h y, h x) e) xs a),
  DistinctBy-map id id' f h xs d,
)

abbrev pub Apart : Participant → Participant → Type 0
Apart = ApartBy (λ (p : Participant). p.bot_id)

abbrev pub Distinct : List Participant → Type 0
Distinct = DistinctBy (λ (p : Participant). p.bot_id)

pub Distinct-filter :
    (f : Participant → Bool) (ps : List Participant) → Distinct ps → Distinct (filter f ps)
Distinct-filter = DistinctBy-filter (λ (p : Participant). p.bot_id)

-- One, if the test holds of the participant.
abbrev pub one : (Participant → Bool) → Participant → ℕ
one p x = if p x then 1 else 0

leave_out-none :
    (u v : Participant) (ps : List Participant)
    → All (Apart u) ps
    → All (Apart v) ps
    → leave_out u v ps ≡ ps
leave_out-none u v [] a b = refl
leave_out-none u v (p ∷ ps) (x, a) (y, b) =
    rw (x, y) (ap (λ (qs : List Participant). p ∷ qs) (leave_out-none u v ps a b))

-- `v` can be taken out of `ps` with `u`, which is not there.
abbrev pub Removable : Participant → List Participant → Participant → Type 0
Removable u ps v = (p : Participant → Bool) → count p (leave_out u v ps) + one p v ≡ count p ps

pub Distinct-Removable :
    (u : Participant) (ps : List Participant)
    → All (Apart u) ps
    → Distinct ps
    → All (Removable u ps) ps
Distinct-Removable u [] a d = tt
Distinct-Removable u (c ∷ cs) (x, a) (b, d) = (
  λ p. rw (x, same_text_refl c.bot_id, leave_out-none u c cs a b) (omega arith),
  All-zip (Apart c) (Removable u cs) (Removable u (c ∷ cs)) cs
      (λ v y r p.
        let z : same_text c.bot_id v.bot_id ≡ false = same_text_comm c.bot_id v.bot_id ∙ y in
        rw (x, z) (omega (arith, r p)))
      b (Distinct-Removable u cs a d),
)

-- `u` is dropped with the opponent.
pub leave_out_first :
    (u v : Participant) (ps : List Participant) → leave_out u v (u ∷ ps) ≡ leave_out u v ps
leave_out_first u v ps = rw (same_text_refl u.bot_id) refl

-- The participants of the pairs.
abbrev pub flat : List Pair → List Participant
flat [] = []
flat (q ∷ qs) = q.u ∷ q.v ∷ flat qs
