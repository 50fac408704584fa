-- ===== src/BotCup/Table/Totals.antt =====
-- The points of a table come from its pairings.
use ottv.Prelude.{
  ℕ, ◌+◌, ◌≡◌, ◌∙◌, refl, ap, List, [], ◌∷◌, All, map, count, arith, inl, inr, Bool-cases,
  if◌then◌else◌,
}
use ottv.Names.{Text}
use ottv.Swiss.Types.{same_text}
use ottv.BotCup.Table.{
  CupTeam, Meeting, CupPairing, bye, meeting, Row, swiss_bye_points, enter, enter_all, empty_row,
  base_table,
}

-- What a pairing is worth: two points for a bye, the points of both sides otherwise.
abbrev pub worth : CupPairing → ℕ
worth (bye id) = swiss_bye_points
worth (meeting m) = m.points_a + m.points_b

abbrev pub total_worth : List CupPairing → ℕ
total_worth [] = 0
total_worth (p ∷ ps) = worth p + total_worth ps

abbrev pub total_points : List Row → ℕ
total_points [] = 0
total_points (r ∷ rs) = r.points + total_points rs

-- What a pairing is worth to one team.
abbrev share : CupPairing → Text → ℕ
share (bye id) t = if same_text id t then swiss_bye_points else 0
share (meeting m) t =
    (if same_text m.a t then m.points_a else 0) + (if same_text m.b t then m.points_b else 0)

abbrev shares : List CupPairing → Text → ℕ
shares [] t = 0
shares (p ∷ ps) t = share p t + shares ps t

-- How often an identifier stands among the teams.
abbrev pub times : List CupTeam → Text → ℕ
times teams id = count (λ (t : CupTeam). same_text id t.team_id) teams

-- Each side of the pairing is one of the teams, once.
abbrev pub Listed : List CupTeam → CupPairing → Type 0
Listed teams (bye id) = times teams id ≡ 1
Listed teams (meeting m) = (times teams m.a ≡ 1) × (times teams m.b ≡ 1)

record Entered (row : Row) (n : ℕ) (r : Row) : Type 0 where
  same_team : r.team_id ≡ row.team_id
  points : r.points ≡ row.points + n

enter-Entered : (p : CupPairing) (row : Row) → Entered row (share p row.team_id) (enter p row)
unfolding enter
enter-Entered (bye id) row = elim (Bool-cases (same_text id row.team_id)) [
  | inl e ↦ rw e (record { same_team = refl; points = refl })
  | inr e ↦ rw e (record { same_team = refl; points = omega arith })
]
enter-Entered (meeting m) row = elim (Bool-cases (same_text m.a row.team_id)) [
  | inl e ↦ rw e (elim (Bool-cases (same_text m.b row.team_id)) [
    | inl f ↦ rw f (record { same_team = refl; points = omega arith })
    | inr f ↦ rw f (record { same_team = refl; points = omega arith })
  ])
  | inr e ↦ rw e (elim (Bool-cases (same_text m.b row.team_id)) [
    | inl f ↦ rw f (record { same_team = refl; points = omega arith })
    | inr f ↦ rw f (record { same_team = refl; points = omega arith })
  ])
]

enter_all-points :
    (ps : List CupPairing) (row : Row)
    → (enter_all row ps).points ≡ row.points + shares ps row.team_id
unfolding enter_all
enter_all-points [] row = omega arith
enter_all-points (p ∷ ps) row =
    let e = enter-Entered p row in
    let h : (enter_all (enter p row) ps).points ≡ (enter p row).points + shares ps row.team_id =
      enter_all-points ps (enter p row)
      ∙ ap (λ t. (enter p row).points + shares ps t) e.same_team in
    omega (arith, h, e.points)

abbrev sum_shares : List CupPairing → List CupTeam → ℕ
sum_shares ps [] = 0
sum_shares ps (t ∷ ts) = shares ps t.team_id + sum_shares ps ts

abbrev sum_share : CupPairing → List CupTeam → ℕ
sum_share p [] = 0
sum_share p (t ∷ ts) = share p t.team_id + sum_share p ts

table-shares :
    (teams : List CupTeam) (ps : List CupPairing)
    → total_points (map (λ t. enter_all (empty_row t) ps) teams) ≡ sum_shares ps teams
table-shares [] ps = refl
table-shares (t ∷ ts) ps = omega (arith, enter_all-points ps (empty_row t), table-shares ts ps)

sum_shares-cons :
    (p : CupPairing) (ps : List CupPairing) (teams : List CupTeam)
    → sum_shares (p ∷ ps) teams ≡ sum_share p teams + sum_shares ps teams
sum_shares-cons p ps [] = refl
sum_shares-cons p ps (t ∷ ts) = omega (arith, sum_shares-cons p ps ts)

sum_shares-nil : (teams : List CupTeam) → sum_shares [] teams ≡ 0
sum_shares-nil [] = refl
sum_shares-nil (t ∷ ts) = omega (arith, sum_shares-nil ts)

-- What a team gets, over all teams with its identifier.
abbrev sum_award : ℕ → Text → List CupTeam → ℕ
sum_award n id [] = 0
sum_award n id (t ∷ ts) = (if same_text id t.team_id then n else 0) + sum_award n id ts

sum_award-none :
    (n : ℕ) (id : Text) (teams : List CupTeam) → times teams id ≡ 0 → sum_award n id teams ≡ 0
sum_award-none n id [] h = refl
sum_award-none n id (t ∷ ts) h = elim (Bool-cases (same_text id t.team_id)) [
  | inl e ↦ let k : 1 + times ts id ≡ 0 = rw e at h in absurd (omega arith)
  | inr e ↦
      let k : 0 + times ts id ≡ 0 = rw e at h in
      rw e (omega (arith, sum_award-none n id ts (omega arith)))
]

sum_award-one :
    (n : ℕ) (id : Text) (teams : List CupTeam) → times teams id ≡ 1 → sum_award n id teams ≡ n
sum_award-one n id [] h = absurd (omega arith)
sum_award-one n id (t ∷ ts) h = elim (Bool-cases (same_text id t.team_id)) [
  | inl e ↦
      let k : 1 + times ts id ≡ 1 = rw e at h in
      rw e (omega (arith, sum_award-none n id ts (omega arith)))
  | inr e ↦
      let k : 0 + times ts id ≡ 1 = rw e at h in
      rw e (omega (arith, sum_award-one n id ts (omega arith)))
]

sum_share-bye :
    (id : Text) (teams : List CupTeam)
    → sum_share (bye id) teams ≡ sum_award swiss_bye_points id teams
sum_share-bye id [] = refl
sum_share-bye id (t ∷ ts) = omega (arith, sum_share-bye id ts)

sum_share-meeting :
    (m : Meeting) (teams : List CupTeam)
    → sum_share (meeting m) teams ≡ sum_award m.points_a m.a teams + sum_award m.points_b m.b teams
sum_share-meeting m [] = refl
sum_share-meeting m (t ∷ ts) = omega (arith, sum_share-meeting m ts)

sum_share-worth :
    (p : CupPairing) (teams : List CupTeam) → Listed teams p → sum_share p teams ≡ worth p
sum_share-worth (bye id) teams h =
    sum_share-bye id teams ∙ sum_award-one swiss_bye_points id teams h
sum_share-worth (meeting m) teams (h, k) = omega (
  arith,
  sum_share-meeting m teams,
  sum_award-one m.points_a m.a teams h,
  sum_award-one m.points_b m.b teams k,
)

-- When the sides of every pairing are among the teams, each once, the points of the table are those of
-- the pairings, all in all: two for a bye and the points of both sides for any other.
pub base_table-total :
    (teams : List CupTeam) (pairings : List CupPairing)
    → All (Listed teams) pairings
    → total_points (base_table teams pairings) ≡ total_worth pairings
unfolding base_table
base_table-total teams pairings a = table-shares teams pairings ∙ go pairings a
  where
    go : (ps : List CupPairing) → All (Listed teams) ps → sum_shares ps teams ≡ total_worth ps
    go [] a = sum_shares-nil teams
    go (p ∷ ps) (l, a) =
        omega (arith, sum_shares-cons p ps teams, sum_share-worth p teams l, go ps a)
