-- ===== src/Rules/Apply/Standing.antt =====
-- The pieces that are on a board, and what a capture leaves of them.
use Prim.Native.String.{String}
use ottv.Prelude.{
  ◌≡◌, ap, sym, ◌∙◌, Bool, true, false, some, List, [], ◌∷◌, All, filter, find?, inl, inr, ◌⊎◌,
  Bool-cases, text_eq, text_eq_comm, text_eq_refl,
}
use ottv.Rules.Types.{Point, Piece}
use ottv.Rules.Board.Occupancy.{UniqueIds}
use ottv.Rules.Apply.{relocate, other_id}

-- The piece is one of the list.
abbrev pub Stands : Piece → List Piece → Type 0
Stands p [] = ⊥
Stands p (q ∷ qs) = (q ≡ p) ⊎ Stands p qs

All-Stands {ℓ} : (P : Piece → Type ℓ) (ps : List Piece) {p : Piece} → All P ps → Stands p ps → P p
All-Stands P [] a s = absurd s
All-Stands P (q ∷ qs) (h, a) (inl e) = rw (← e) h
All-Stands P (q ∷ qs) (h, a) (inr s) = All-Stands P qs a s

pub Stands-find :
    (f : Piece → Bool) (ps : List Piece) {p : Piece} → find? f ps ≡ some p → Stands p ps
Stands-find f [] h = absurd (cc)
Stands-find f (q ∷ qs) {p} h = elim (Bool-cases (f q)) [
  | inl e ↦ let h' : some q ≡ some p = rw e at h in inl (cc)
  | inr e ↦ inr (Stands-find f qs (rw e at h))
]

pub Stands-filter :
    (f : Piece → Bool) (ps : List Piece) {p : Piece}
    → f p ≡ true
    → Stands p ps
    → Stands p (filter f ps)
Stands-filter f [] h s = absurd s
Stands-filter f (q ∷ qs) {p} h (inl e) = let here : f q ≡ true = ap f e ∙ h in rw here (inl e)
Stands-filter f (q ∷ qs) {p} h (inr s) = elim (Bool-cases (f q)) [
  | inl e ↦ rw e (inr (Stands-filter f qs h s))
  | inr e ↦ rw e (Stands-filter f qs h s)
]

-- With distinct ids two pieces of a list are the same, or have different ids.
pub Stands-Stands :
    (ps : List Piece) {p q : Piece}
    → UniqueIds ps
    → Stands p ps
    → Stands q ps
    → (p ≡ q) ⊎ (text_eq p.id q.id ≡ false)
Stands-Stands [] u s t = absurd s
Stands-Stands (r ∷ rs) (v, u) (inl e) (inl f) = inl (sym e ∙ f)
Stands-Stands (r ∷ rs) {p} {q} (v, u) (inl e) (inr t) =
    let h : text_eq r.id q.id ≡ false = All-Stands _ rs v t in
    inr (ap (λ (x : Piece). text_eq x.id q.id) (sym e) ∙ h)
Stands-Stands (r ∷ rs) {p} {q} (v, u) (inr s) (inl f) =
    let h : text_eq r.id p.id ≡ false = All-Stands _ rs v s in
    inr (text_eq_comm p.id q.id ∙ ap (λ (x : Piece). text_eq x.id p.id) (sym f) ∙ h)
Stands-Stands (r ∷ rs) (v, u) (inr s) (inr t) = Stands-Stands rs u s t

-- The piece that is moved stands on its new square.
pub relocate-Stands :
    (t : Point) (ps : List Piece) (p : Piece)
    → UniqueIds ps
    → Stands p ps
    → Stands (record p { x = t.x; y = t.y }) (relocate p.id t ps)
unfolding relocate
relocate-Stands t [] p u s = absurd s
relocate-Stands t (q ∷ qs) p u (inl e) =
    let own : text_eq q.id p.id ≡ true =
      ap (λ (x : Piece). text_eq x.id p.id) e ∙ text_eq_refl p.id in
    rw own (inl (ap (λ (x : Piece). record x { x = t.x; y = t.y }) e))
relocate-Stands t (q ∷ qs) p (v, u) (inr s) =
    let other : text_eq q.id p.id ≡ false = All-Stands _ qs v s in
    rw other (inr (relocate-Stands t qs p u s))

-- No piece has the id that was filtered out.
pub other_id-gone :
    (id : String) (ps : List Piece)
    → All (λ (p : Piece). text_eq p.id id ≡ false) (filter (other_id id) ps)
other_id-gone id [] = tt
other_id-gone id (p ∷ ps) = elim (Bool-cases (text_eq p.id id)) [
  | inl e ↦ rw e (other_id-gone id ps)
  | inr e ↦ rw e (e, other_id-gone id ps)
]
