-- ===== src/Rules/Apply/Captures.antt =====
-- What an accepted move does to the pieces: who goes where, and what is captured.
use Prim.Native.String.{String}
use mathlib.Core.Path.{subst₂}
use ottv.Prelude.{
  suc, ◌≡◌, ◌≢◌, refl, sym, ap, ◌∙◌, Bool, true, false, Option, none, some, List, [], ◌∷◌, arith,
  All, filter, find?, any, inl, inr, find-holds, filter-nil, text_eq,
}
use ottv.Rules.Types.{Seat, seat_a, seat_b, other, Kind, beats, Point, Piece, GameState, ok}
use ottv.Rules.Board.{at, pieces_at, inside_point, Sent, whole, other_value, compare, win}
use ottv.Rules.Board.Occupancy.{UniqueIds, IsBoard, UniqueIds-filter, at-eq}
use ottv.Rules.Moves.{of_seat}
use ottv.Rules.Apply.{RawPoint, relocate, other_id, apply_move}
use ottv.Rules.Apply.Accepted.{Applying, mover_at, Accepted, apply_move-Accepted}
use ottv.Rules.Apply.Played.{Effect, to_empty, to_enemy, relocate-All}
use ottv.Rules.Apply.Strength.{strength, strength-relocate, strength-remove}
use ottv.Rules.Apply.Standing.{
  Stands, Stands-find, Stands-filter, Stands-Stands, relocate-Stands, other_id-gone,
}
use ottv.Rules.Apply.Concluded.{Outcome-pieces}
use ottv.Rules.Apply.Legal.{seat_eq-eq}
use ottv.Rules.Apply.Kept.{Accepted-Effect, Accepted-Outcome}

find_of_filter {ℓ} :
    {A : Type ℓ} (f : A → Bool) (xs : List A) {y : A} {ys : List A}
    → filter f xs ≡ y ∷ ys
    → find? f xs ≡ some y
find_of_filter f [] h = cc
find_of_filter f (x ∷ xs) {y} {ys} h = ground (arith, find_of_filter f xs {y = y} {ys = ys})

compare-win-beats : (k l : Kind) → compare k l ≡ win → beats k ≡ l
unfolding compare
compare-win-beats k l h = ground arith

any-one : (seat : Seat) (e : Piece) → any (of_seat seat) (e ∷ []) ≡ false → e.player ≡ other seat
any-one seat e h = ground arith

seat_ne_other : (seat : Seat) → seat ≢ other seat
seat_ne_other seat_a h = cc
seat_ne_other seat_b h = cc

-- No piece has the id.
abbrev pub Gone : String → List Piece → Type 0
Gone id = All (λ (p : Piece). text_eq p.id id ≡ false)

-- The square that was sent.
abbrev pub Aimed : Option RawPoint → Point → Type 0
Aimed none t = ⊥
Aimed (some r) t = (r.raw_x ≡ whole t.x) × (r.raw_y ≡ whole t.y)

-- A piece of the seat that was on the square `f`, and is on the square `t` afterwards.
pub record Goes (m : Piece) (f t : Point) (turn : Seat) (before after : List Piece) : Type 0 where
  pub was : Stands m before
  pub own : m.player ≡ turn
  pub from_x : m.x ≡ f.x
  pub from_y : m.y ≡ f.y
  pub moved : Stands (record m { x = t.x; y = t.y }) after

-- A piece of the moving seat `turn` goes from `f` to `t`, and the seat keeps its strength. The other
-- seat keeps it, or loses the piece `e` that was on the square `t`.
pub data Toll (f t : Point) (turn : Seat) (before after : List Piece) : Type 0 where
  unchanged :
      (m : Piece)
      → Goes m f t turn before after
      → All (λ (p : Piece). at t.x t.y p ≡ false) before
      → strength turn after ≡ strength turn before
      → strength (other turn) after ≡ strength (other turn) before
      → Toll f t turn before after
  taken :
      (m e : Piece)
      → Goes m f t turn before after
      → Stands e before
      → e.player ≡ other turn
      → beats m.type ≡ e.type
      → (e.x ≡ t.x) × (e.y ≡ t.y)
      → Gone e.id after
      → strength turn after ≡ strength turn before
      → suc (strength (other turn) after) ≡ strength (other turn) before
      → Toll f t turn before after

inside_point-whole :
    (c d : Sent) (p : Point) → inside_point c d ≡ some p → (c ≡ whole p.x) × (d ≡ whole p.y)
unfolding inside_point
inside_point-whole (whole x) (whole y) p h = (ground arith, ground arith)
inside_point-whole (whole x) other_value p h = absurd (cc)
inside_point-whole other_value d p h = absurd (cc)

inside_point-Aimed :
    (to : Option RawPoint) (r : RawPoint) (t : Point)
    → to ≡ some r
    → inside_point r.raw_x r.raw_y ≡ some t
    → Aimed to t
inside_point-Aimed none r t e h = absurd (cc)
inside_point-Aimed (some q) r t e h =
    let same : q ≡ r = cc in rw same (inside_point-whole r.raw_x r.raw_y t h)

-- The piece `m` takes the piece `x` on the square `t`.
capture-Stands :
    (turn : Seat) (ps : List Piece) (m x : Piece) (t : Point)
    → UniqueIds ps
    → Stands m ps
    → Stands x ps
    → m.player ≡ turn
    → x.player ≡ other turn
    → let after = relocate m.id t (filter (other_id x.id) ps) in
      Stands (record m { x = t.x; y = t.y }) after × Gone x.id after
capture-Stands turn ps m x t u m_in x_in own foe =
    let stays : other_id x.id m ≡ true = elim (Stands-Stands ps u m_in x_in) [
      | inl e ↦
          let same : turn ≡ other turn = sym own ∙ ap (λ (p : Piece). p.player) e ∙ foe in
          absurd (seat_ne_other turn same)
      | inr d ↦ rw d refl
    ] in
    (
      relocate-Stands t (filter (other_id x.id) ps) m (UniqueIds-filter _ ps u)
          (Stands-filter _ ps stays m_in),
      relocate-All _ m.id t _ (λ p h. h) (other_id-gone x.id ps),
    )

Effect-Toll :
    (s : GameState) (turn : Seat) (m : Piece) (f t : Point) (played : Applying)
    → UniqueIds s.pieces
    → mover_at s turn f ≡ some m
    → any (of_seat turn) (pieces_at s t.x t.y) ≡ false
    → Effect s m f t played
    → Toll f t turn s.pieces played.0.pieces
unfolding pieces_at
Effect-Toll s turn m f t played u found foes effect = by_effect effect
  where
    m_in : Stands m s.pieces
    m_in = Stands-find _ s.pieces found

    own : m.player ≡ turn
    own = seat_eq-eq _ _ (ground (arith, find-holds _ s.pieces found))

    place : (m.x ≡ f.x) × (m.y ≡ f.y)
    place = at-eq f.x f.y m (ground (arith, find-holds _ s.pieces found))

    goes :
        (after : List Piece)
        → Stands (record m { x = t.x; y = t.y }) after
        → Goes m f t turn s.pieces after
    goes after moved = record {
      was = m_in;
      own = own;
      from_x = place.0;
      from_y = place.1;
      moved = moved;
    }

    by_effect : Effect s m f t played → Toll f t turn s.pieces played.0.pieces
    by_effect (to_empty none_there e) = rw e (
        unchanged m (goes _ (relocate-Stands t s.pieces m u m_in))
          (filter-nil _ s.pieces none_there) (strength-relocate turn m.id t s.pieces)
          (strength-relocate (other turn) m.id t s.pieces))
    by_effect (to_enemy x one w e) =
        let foe = any-one turn x (rw one at foes) in
        let here = find_of_filter _ s.pieces one in
        let x_in = Stands-find _ s.pieces here in
        let (moved, gone) = capture-Stands turn s.pieces m x t u m_in x_in own foe in
        rw e (
          taken m x (goes _ moved) x_in foe (compare-win-beats m.type x.type w)
            (at-eq t.x t.y x (find-holds _ s.pieces here)) gone
            (ground (
              arith,
              strength-relocate turn m.id t (filter (other_id x.id) s.pieces),
              strength-remove turn _ s.pieces x u here,
            ))
            (ground (
              arith,
              strength-relocate (other turn) m.id t (filter (other_id x.id) s.pieces),
              strength-remove (other turn) _ s.pieces x u here,
            )))

-- An accepted move from a board takes a piece of the moving seat from the square that is sent first to
-- the one that is sent second, and leaves the number of the pieces of that seat as it is. When no piece
-- was on the second square, it leaves the number of the other seat's pieces too; otherwise it takes
-- from that seat just one piece, which was there: the piece that moves beats its kind, and no piece has
-- its id any more.
pub apply_move-Toll :
    (s : GameState) (player : Option Seat) (from to : Option RawPoint) (r : Applying)
    → IsBoard s.pieces
    → apply_move (some s) player from to ≡ ok r
    → (f t : Point) × Aimed from f × Aimed to t × Toll f t s.turn s.pieces r.0.pieces
apply_move-Toll s player from to r v h = (
  a.f,
  a.t,
  inside_point-Aimed from a.raw_from a.f a.from_given a.from_inside,
  inside_point-Aimed to a.raw_to a.t a.to_given a.to_inside,
  subst₂ (λ (seat : Seat) (ps : List Piece). Toll a.f a.t seat s.pieces ps)
      (sym (seat_eq-eq _ _ a.on_turn)) (sym (Outcome-pieces _ _ _ _ (Accepted-Outcome a)))
      (Effect-Toll s a.seat a.stepped.mover a.f a.t a.stepped.played v.unique_ids a.stepped.found
        a.stepped.no_own (Accepted-Effect v a)),
)
  where
    a : Accepted s player from to r
    a = apply_move-Accepted s player from to h
