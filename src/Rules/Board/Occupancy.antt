-- ===== src/Rules/Board/Occupancy.antt =====
-- What the loop of `hasSingleOccupancy` decides, and the invariant of the boards of a game.
use ottv.Prelude.{
  ◌≡◌, refl, ◌↔◌, inl, inr, Bool, true, false, some, List, [], ◌∷◌, map, ℤ, eq_ℤ_iff, arith, All,
  filter, any, find?, length, leb, text_eq, Bool-cases, All-filter, filter_of_none, ap, sym,
  All-find, text_eq_refl,
}
use ottv.Rules.Types.{Point, point, Piece, GameState}
use ottv.Rules.Board.{
  at, on_square, single_occupancy, has_single_occupancy, inside, clone_state, clone_piece,
}

-- No piece stands on the square.
abbrev pub Vacant : ℤ → ℤ → List Piece → Type 0
Vacant x y = All (λ p. at x y p ≡ false)

-- No two pieces stand on one square.
abbrev pub Separate : List Piece → Type 0
Separate [] = Unit
Separate (p ∷ ps) = Vacant p.x p.y ps × Separate ps

abbrev pub UniqueIds : List Piece → Type 0
UniqueIds [] = Unit
UniqueIds (p ∷ ps) = All (λ q. text_eq p.id q.id ≡ false) ps × UniqueIds ps

abbrev pub OnBoard : List Piece → Type 0
OnBoard = All (λ p. inside p.x p.y ≡ true)

pub record IsBoard (ps : List Piece) : Type 0 where
  pub separate : Separate ps
  pub unique_ids : UniqueIds ps
  pub on_board : OnBoard ps

-- No piece stands on a square of `seen`.
abbrev Unseen : List Point → List Piece → Type 0
Unseen seen = All (λ p. any (on_square (point p.x p.y)) seen ≡ false)

Unseen-cons :
    (q : Point) (seen : List Point) (ps : List Piece)
    → Unseen (q ∷ seen) ps
    → Vacant q.x q.y ps × Unseen seen ps
unfolding at
Unseen-cons q seen [] u = (tt, tt)
Unseen-cons q seen (p ∷ ps) (e, u) =
    let (v, w) = Unseen-cons q seen ps u in ((ground arith, v), (ground arith, w))

cons-Unseen :
    (q : Point) (seen : List Point) (ps : List Piece)
    → Vacant q.x q.y ps
    → Unseen seen ps
    → Unseen (q ∷ seen) ps
unfolding at
cons-Unseen q seen [] v u = tt
cons-Unseen q seen (p ∷ ps) (e, v) (n, u) = (ground arith, cons-Unseen q seen ps v u)

single_occupancy-Separate :
    (seen : List Point) (ps : List Piece)
    → single_occupancy seen ps ≡ true
    → Separate ps × Unseen seen ps
unfolding single_occupancy
single_occupancy-Separate seen [] h = (tt, tt)
single_occupancy-Separate seen (p ∷ ps) h = elim (Bool-cases (any (on_square here) seen)) [
  | inl e ↦ absurd (ground arith)
  | inr e ↦
      let (s, u) = single_occupancy-Separate (here ∷ seen) ps (rw e at h) in
      let (v, w) = Unseen-cons here seen ps u in ((v, s), (e, w))
]
  where
    here : Point
    here = point p.x p.y

Separate-single_occupancy :
    (seen : List Point) (ps : List Piece)
    → Separate ps
    → Unseen seen ps
    → single_occupancy seen ps ≡ true
unfolding single_occupancy
Separate-single_occupancy seen [] s u = refl
Separate-single_occupancy seen (p ∷ ps) (v, s) (e, u) =
    rw e (Separate-single_occupancy (here ∷ seen) ps s (cons-Unseen here seen ps v u))
  where
    here : Point
    here = point p.x p.y

Unseen-nil : (ps : List Piece) → Unseen [] ps
Unseen-nil [] = tt
Unseen-nil (p ∷ ps) = (refl, Unseen-nil ps)

-- `hasSingleOccupancy` holds exactly when no two pieces stand on one square.
pub has_single_occupancy_iff : (s : GameState) → (has_single_occupancy s ≡ true) ↔ Separate s.pieces
unfolding has_single_occupancy
has_single_occupancy_iff s = (
  λ h. (single_occupancy-Separate [] s.pieces h).0,
  λ h. Separate-single_occupancy [] s.pieces h (Unseen-nil s.pieces),
)

pub Separate-filter : (f : Piece → Bool) (ps : List Piece) → Separate ps → Separate (filter f ps)
Separate-filter f [] s = tt
Separate-filter f (p ∷ ps) (v, s) = elim (Bool-cases (f p)) [
  | inl e ↦ rw e (All-filter _ f ps v, Separate-filter f ps s)
  | inr e ↦ rw e (Separate-filter f ps s)
]

pub UniqueIds-filter : (f : Piece → Bool) (ps : List Piece) → UniqueIds ps → UniqueIds (filter f ps)
UniqueIds-filter f [] s = tt
UniqueIds-filter f (p ∷ ps) (v, s) = elim (Bool-cases (f p)) [
  | inl e ↦ rw e (All-filter _ f ps v, UniqueIds-filter f ps s)
  | inr e ↦ rw e (UniqueIds-filter f ps s)
]

pub IsBoard-filter : (f : Piece → Bool) (ps : List Piece) → IsBoard ps → IsBoard (filter f ps)
IsBoard-filter f ps v = record {
  separate = Separate-filter f ps v.separate;
  unique_ids = UniqueIds-filter f ps v.unique_ids;
  on_board = All-filter _ f ps v.on_board;
}

pub at-eq : (x y : ℤ) (p : Piece) → at x y p ≡ true → (p.x ≡ x) × (p.y ≡ y)
unfolding at
at-eq x y p h = ((eq_ℤ_iff p.x x).0 (ground arith), (eq_ℤ_iff p.y y).0 (ground arith))

-- At most one piece stands on a square.
pub length-pieces_at :
    (x y : ℤ) (ps : List Piece) → Separate ps → leb (length (filter (at x y) ps)) 1 ≡ true
length-pieces_at x y [] s = refl
length-pieces_at x y (p ∷ ps) (v, s) = elim (Bool-cases (at x y p)) [
  | inl e ↦
      let (ex, ey) = at-eq x y p e in
      let none_left : filter (at x y) ps ≡ [] = filter_of_none _ ps (rw (ex, ey) at v) in
      rw (e, none_left)
  | inr e ↦ rw e (length-pieces_at x y ps s)
]

-- The piece that stands on a square is found by its id.
pub find-by_id :
    (f : Piece → Bool) (ps : List Piece) (m : Piece)
    → UniqueIds ps
    → find? f ps ≡ some m
    → find? (λ p. text_eq p.id m.id) ps ≡ some m
find-by_id f [] m u h = cc
find-by_id f (p ∷ ps) m (v, u) h = elim (Bool-cases (f p)) [
  | inl e ↦
      let h' : some p ≡ some m = rw e at h in
      let same : p ≡ m = cc in
      rw (ap (λ (q : Piece). text_eq p.id q.id) (sym same), text_eq_refl) h'
  | inr e ↦
      let h' : find? f ps ≡ some m = rw e at h in rw (All-find _ f ps v h') (find-by_id f ps m u h')
]

clone_pieces_eq : (ps : List Piece) → map clone_piece ps ≡ ps
clone_pieces_eq [] = refl
clone_pieces_eq (p ∷ ps) = ap (p ∷◌) (clone_pieces_eq ps)

-- A copy of a state has the same contents.
pub clone_state_eq : (s : GameState) → clone_state s ≡ s
unfolding clone_state
clone_state_eq s = ap (λ (ps : List Piece). record s { pieces = ps }) (clone_pieces_eq s.pieces)
