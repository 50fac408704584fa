-- ===== src/BotCup/Interviews.antt =====
-- `topFourAfterInterviews` of tournament.mjs.
pub mod Fair
use Prim.Native.Nat.{min}
use ottv.Prelude.{
  ℕ, zero, suc, ◌+◌, ◌-◌, ◌≤◌, ◌≡◌, ◌↔◌, ◌∙◌, refl, Bool, true, false, ◌&&◌, not, Option, none,
  some, List, [], ◌∷◌, ◌++◌, ◌==◌, leb, length, filter, if◌then◌else◌, arith, inl, inr, Bool-cases,
}
use ottv.Names.{Text}

pub data Interview : Type 0 where
  pass fail pending : Interview

pub record TopFour : Type 0 where
  pub ready : Bool
  pub seeded : List Text
  pub waiting_for : List Text

abbrev pub is_fail : Interview → Bool
is_fail fail = true
is_fail _ = false

abbrev pub is_pass : Interview → Bool
is_pass pass = true
is_pass _ = false

-- The result of an interview; a team without one is pending.
module _ (interviews : Text → Interview) where
  -- The loop over the ranking; `seeded` and `waiting` are what it has pushed so far.
  unfoldable pub choose_four : List Text → List Text → List Text → List Text × List Text
  choose_four seeded waiting [] = (seeded, waiting)
  choose_four seeded waiting (id ∷ ids) =
      let failed = choose_four seeded waiting ids in
      let passed = choose_four (seeded ++ id ∷ []) waiting ids in
      let waits = choose_four seeded (waiting ++ id ∷ []) ids in
      if leb 4 (length seeded + length waiting)
      then (seeded, waiting)
      else if is_fail (interviews id)
      then failed
      else if is_pass (interviews id)
      then passed
      else waits

  abbrev pub not_failed : List Text → List Text
  not_failed ids = filter (λ id. not (is_fail (interviews id))) ids

  -- `topFourAfterInterviews`
  unfoldable pub top_four_after_interviews : List Text → TopFour
  unfolding choose_four
  top_four_after_interviews ranking =
      let chosen = choose_four [] [] ranking in
      record {
        ready = length chosen.1 == 0 && length chosen.0 == min 4 (length (not_failed ranking));
        seeded = chosen.0;
        waiting_for = chosen.1;
      }
