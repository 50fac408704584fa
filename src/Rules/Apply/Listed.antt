-- ===== src/Rules/Apply/Listed.antt =====
-- `allMoves` lists exactly the moves that `applyMove` accepts.
use mathlib.Core.Path.{subst, subst₂}
use ottv.Prelude.{
  ◌≡◌, refl, sym, ◌∙◌, Bool, true, ◌&&◌, none, some, List, [], ◌∷◌, map, arith, All, find?, any,
  inl, inr, Bool-cases, Bool-ext, find-holds, All-append, All-map, All-zip, All-map_of, any-elim,
  any_self, any-map, any-append, any-All, All-of, eq_ℤ_refl, eq_ℤ_comm,
}
use ottv.Rules.Types.{Seat, seat_eq, Point, Piece, GameState, Result, is_ok, ok}
use ottv.Rules.Board.{at, on_square, inside, inside_point, whole}
use ottv.Rules.Board.Occupancy.{Separate, IsBoard}
use ottv.Rules.Moves.{LegalMove, get_legal_moves, moves_of_player, all_moves, is_none}
use ottv.Rules.Apply.{RawPoint, apply_move}
use ottv.Rules.Apply.Accepted.{mover_at, apply_move-Accepted}
use ottv.Rules.Apply.Legal.{raw_point, apply_move-get_legal_moves}
use ottv.Rules.Apply.Steps.{place, on_square_refl, on_square-eq}

at_comm : (p q : Piece) → at p.x p.y q ≡ at q.x q.y p
unfolding at
at_comm p q = ground (arith, eq_ℤ_comm p.x q.x, eq_ℤ_comm p.y q.y)

at_self : (p : Piece) → at p.x p.y p ≡ true
unfolding at
at_self p = ground (arith, eq_ℤ_refl p.x, eq_ℤ_refl p.y)

-- On a board each piece is found on its own square.
find-place :
    (g : Piece → Bool) (ps : List Piece)
    → Separate ps
    → All (λ p. g p ≡ true → find? (λ q. g q && at p.x p.y q) ps ≡ some p) ps
find-place g [] s = tt
find-place g (p ∷ ps) (v, s) = (
  λ h. rw (h, at_self p),
  All-zip _ _ _ ps (λ q off ih h. ground (arith, at_comm p q, ih h)) v (find-place g ps s),
)

-- The request for a listed move is accepted.
abbrev pub accepts : GameState → Point → Point → Bool
accepts s f t = is_ok (apply_move (some s) (some s.turn) (some (raw_point f)) (some (raw_point t)))

is_ok-eq-ok {ℓ} : {A : Type ℓ} (m : Result A) → is_ok m ≡ true → (r : A) × (m ≡ ok r)
is_ok-eq-ok m h = ground arith

-- The square that `applyMove` reads from a request.
inside_point-raw_point :
    (p : Point) (raw : RawPoint) (q : Point)
    → some (raw_point p) ≡ some raw
    → inside_point raw.raw_x raw.raw_y ≡ some q
    → p ≡ q
inside_point-raw_point p raw q e h =
    let same : raw_point p ≡ raw = cc in
    let h' : inside_point (whole p.x) (whole p.y) ≡ some q =
      subst (λ (w : RawPoint). inside_point w.raw_x w.raw_y ≡ some q) (sym same) h in
    unfold inside_point in
    elim (Bool-cases (inside p.x p.y)) [
      | inl i ↦ cc (rw i at h')
      | inr o ↦ absurd (cc (rw o at h'))
    ]

mover-place :
    (s : GameState) (seat : Seat) (f : Point) (m : Piece) → mover_at s seat f ≡ some m → place m ≡ f
mover-place s seat f m found =
    let both = find-holds _ s.pieces found in on_square-eq (place m) f (unfold at in ground arith)

abbrev pub Sound : GameState → LegalMove → Type 0
Sound s m = accepts s m.from m.to ≡ true

abbrev pub is_move : Point → Point → LegalMove → Bool
is_move f t m = on_square m.from f && on_square m.to t

module _ (s : GameState) (v : IsBoard s.pieces) (running : s.winner ≡ none) where
  accepts-place :
      (m : Piece) (t : Point)
      → mover_at s s.turn (place m) ≡ some m
      → accepts s (place m) t ≡ any (λ p. on_square p t) (get_legal_moves s m.id)
  accepts-place m t found = apply_move-get_legal_moves s s.turn m v found t running refl

  moves_of_piece-Sound :
      (m : Piece)
      → mover_at s s.turn (place m) ≡ some m
      → All (Sound s) (
          map
            (λ (t : Point). record { piece_id = m.id; from = place m; to = t })
            (get_legal_moves s m.id))
  moves_of_piece-Sound m found = All-map _ _ (get_legal_moves s m.id) (
      All-map_of _ _ (λ t h. accepts-place m t found ∙ h) (get_legal_moves s m.id)
        (any_self on_square (get_legal_moves s m.id) on_square_refl))

  moves_of_player-Sound :
      (ps : List Piece)
      → All (λ p. seat_eq p.player s.turn ≡ true → mover_at s s.turn (place p) ≡ some p) ps
      → All (Sound s) (moves_of_player s s.turn ps)
  unfolding moves_of_player
  moves_of_player-Sound [] a = tt
  moves_of_player-Sound (p ∷ ps) (h, a) = elim (Bool-cases (seat_eq p.player s.turn)) [
    | inl own ↦
        rw own (All-append _ _ _ (moves_of_piece-Sound p (h own)) (moves_of_player-Sound ps a))
    | inr foe ↦ rw foe (moves_of_player-Sound ps a)
  ]

  pub all_moves-Sound : All (Sound s) (all_moves s s.turn)
  unfolding all_moves
  all_moves-Sound =
      let open_game : is_none s.winner ≡ true = rw running in
      rw open_game (moves_of_player-Sound s.pieces (find-place _ s.pieces v.separate))

  moves_of_piece-Complete :
      (f t : Point) (m : Piece)
      → on_square (place m) f ≡ true
      → any (λ p. on_square p t) (get_legal_moves s m.id) ≡ true
      → any (is_move f t) (
          map
            (λ (t' : Point). record { piece_id = m.id; from = place m; to = t' })
            (get_legal_moves s m.id))
        ≡ true
  moves_of_piece-Complete f t m here h =
      any-map _ _ (get_legal_moves s m.id)
      ∙ any-All _ _ (get_legal_moves s m.id)
          (All-of _ (λ p e. ground arith) (get_legal_moves s m.id)) h

  moves_of_player-Complete :
      (f t : Point) (m : Piece) (ps : List Piece)
      → find? (λ p. seat_eq p.player s.turn && at f.x f.y p) ps ≡ some m
      → any (λ p. on_square p t) (get_legal_moves s m.id) ≡ true
      → any (is_move f t) (moves_of_player s s.turn ps) ≡ true
  unfolding moves_of_player
  moves_of_player-Complete f t m [] found h = absurd (cc)
  moves_of_player-Complete f t m (p ∷ ps) found h =
      elim (Bool-cases (seat_eq p.player s.turn && at f.x f.y p)) [
        | inl e ↦
            let found' : some p ≡ some m = rw e at found in
            let same : m ≡ p = cc in
            let own : seat_eq p.player s.turn ≡ true = ground arith in
            let here : on_square (place p) f ≡ true = unfold at in ground arith in
            rw (own, any-append, moves_of_piece-Complete f t p here (rw same at h))
        | inr e ↦
            let rest = moves_of_player-Complete f t m ps (rw e at found) h in
            rw (any-append, rest) (ground arith)
      ]

  -- The piece that an accepted request moves.
  accepted-mover :
      (f t : Point) → accepts s f t ≡ true → (m : Piece) × (mover_at s s.turn f ≡ some m)
  accepted-mover f t h =
      let (r, e) = is_ok-eq-ok _ h in
      let a = apply_move-Accepted s (some s.turn) (some (raw_point f)) (some (raw_point t)) e in
      let given = a.seat_given in
      let on_turn : a.seat ≡ s.turn = cc in
      let same_f = inside_point-raw_point f a.raw_from a.f a.from_given a.from_inside in
      (
        a.stepped.mover,
        subst₂ (λ seat p. mover_at s seat p ≡ some a.stepped.mover) on_turn (sym same_f)
            a.stepped.found,
      )

  accepted_is_listed :
      (f t : Point) → accepts s f t ≡ true → any (is_move f t) (all_moves s s.turn) ≡ true
  unfolding all_moves
  accepted_is_listed f t h =
      let open_game : is_none s.winner ≡ true = rw running in
      let (m, found) = accepted-mover f t h in
      let here = mover-place s s.turn f m found in
      let listed : any (λ p. on_square p t) (get_legal_moves s m.id) ≡ true =
        sym (accepts-place m t (subst (λ p. mover_at s s.turn p ≡ some m) (sym here) found))
        ∙ subst (λ p. accepts s p t ≡ true) (sym here) h in
      rw open_game (moves_of_player-Complete f t m s.pieces found listed)

  -- On a board with the game open, a request of the seat on turn is accepted exactly when it is one
  -- of the moves that `allMoves` lists for it.
  pub apply_move-all_moves :
      (f t : Point)
      → is_ok (apply_move (some s) (some s.turn) (some (raw_point f)) (some (raw_point t)))
        ≡ any (is_move f t) (all_moves s s.turn)
  apply_move-all_moves f t = Bool-ext _ _ (accepted_is_listed f t) (
      any-elim (Sound s) (is_move f t) (all_moves s s.turn)
        (λ m e p.
          subst₂ (λ f' t'. accepts s f' t' ≡ true) (on_square-eq m.from f (ground arith))
            (on_square-eq m.to t (ground arith)) p)
        all_moves-Sound)
