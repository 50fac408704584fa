-- ===== src/BotCup/Submission/Final.antt =====
-- The submission that plays.
use mathlib.Core.Path.{subst}
use ottv.Prelude.{
  ◌∙◌, true, false, ◌≤◌, ◌<◌, ◌≡◌, ◌≢◌, refl, ap, Bool, Option, none, some, List, [], ◌∷◌, ◌++◌,
  ltb, filter, find?, All, find-holds, arith, inl, inr, Bool-cases,
}
use ottv.Names.{Text}
use ottv.Swiss.Types.{same_text, same_text_eq, same_text_refl}
use ottv.BotCup.Submission.{
  Submission, SubmissionStatus, checking, ready, build_failed, smoke_failed, is_ready, latest_from,
  eligible, chosen_one, effective_final_submission, sealed_submission,
}

-- The place of one of the submissions.
abbrev pub Among : List Submission → Submission → Type 0
Among ss s = (before : List Submission) × (after : List Submission) × (ss ≡ before ++ s ∷ after)

-- No submission has the identifier that the team has named; an empty one names nothing.
abbrev pub Unnamed : Option Text → List Submission → Type 0
Unnamed none ss = Unit
Unnamed (some []) ss = Unit
Unnamed (some (c ∷ cs)) ss = All (λ (t : Submission). t.id ≢ c ∷ cs) ss

-- The submissions that have passed their checks.
abbrev pub ready_status : SubmissionStatus → Bool
ready_status ready = true
ready_status checking = false
ready_status build_failed = false
ready_status smoke_failed = false

abbrev pub ready_ones : List Submission → List Submission
ready_ones ss = filter (λ (s : Submission). ready_status s.status) ss

-- What is chosen from a list: one with the identifier that the team has named, if there is one;
-- otherwise one with the greatest number; nothing only from nothing.
pub data Chosen (ss : List Submission) (id : Option Text) : Option Submission → Type 0 where
  by_team :
      (i : Text) (s : Submission)
      → id ≡ some i
      → i ≢ []
      → s.id ≡ i
      → Among ss s
      → Chosen ss id (some s)
  newest :
      (s : Submission)
      → Unnamed id ss
      → Among ss s
      → All (λ (t : Submission). t.seq ≤ s.seq) ss
      → Chosen ss id (some s)
  nothing : ss ≡ [] → Chosen ss id none

Among-next :
    (t : Submission) (ss : List Submission) (s : Submission) → Among ss s → Among (t ∷ ss) s
Among-next t ss s (before, after, e) = (t ∷ before, after, ap (λ (r : List Submission). t ∷ r) e)

find-Among :
    (f : Submission → Bool) (ss : List Submission) (s : Submission)
    → find? f ss ≡ some s
    → Among ss s
find-Among f [] s h = absurd (cc)
find-Among f (t ∷ ss) s h = elim (Bool-cases (f t)) [
  | inl e ↦
      let w : some t ≡ some s = rw e at h in
      let same : t ≡ s = cc in ([], ss, ap (λ (r : Submission). r ∷ ss) same)
  | inr e ↦ Among-next t ss s (find-Among f ss s (rw e at h))
]

-- The newest so far, and those that it is not older than.
record Newest (l : Submission) (ss : List Submission) (r : Option Submission) : Type 0 where
  newest_one : Submission
  result : r ≡ some newest_one
  among : Among (l ∷ ss) newest_one
  greatest : All (λ (t : Submission). t.seq ≤ newest_one.seq) (l ∷ ss)

latest_from-Newest : (l : Submission) (ss : List Submission) → Newest l ss (latest_from (some l) ss)
unfolding latest_from
latest_from-Newest l [] = record {
  newest_one = l;
  result = refl;
  among = ([], [], refl);
  greatest = (omega arith, tt);
}
latest_from-Newest l (s ∷ ss) = elim (Bool-cases (ltb l.seq s.seq)) [
  | inl e ↦
      let r = latest_from-Newest s ss in
      let newer : l.seq < s.seq = ground arith in
      record {
        newest_one = r.newest_one;
        result = rw e r.result;
        among = Among-next l (s ∷ ss) r.newest_one r.among;
        greatest = (omega (arith, r.greatest.0), r.greatest);
      }
  | inr e ↦
      let r = latest_from-Newest l ss in
      let older : s.seq ≤ l.seq = ground arith in
      record {
        newest_one = r.newest_one;
        result = rw e r.result;
        among = skip l s ss r.newest_one r.among;
        greatest = (r.greatest.0, (omega (arith, r.greatest.0), r.greatest.1));
      }
]
  where
    skip :
        (a b : Submission) (cs : List Submission) (x : Submission)
        → Among (a ∷ cs) x
        → Among (a ∷ b ∷ cs) x
    skip a b cs x ([], after, e) = ([], b ∷ cs, cc)
    skip a b cs x (c ∷ before, after, e) = (c ∷ b ∷ before, after, cc)

choice :
    (ss : List Submission) (id : Option Text) (s : Submission)
    → chosen_one ss id ≡ some s
    → Chosen ss id (some s)
choice ss none s h = absurd (cc)
choice ss (some []) s h = absurd (cc)
choice ss (some (c ∷ cs)) s h =
    by_team (c ∷ cs) s refl (λ h. absurd (cc))
      (same_text_eq s.id (c ∷ cs) (find-holds (λ (t : Submission). same_text t.id (c ∷ cs)) ss h))
      (find-Among _ ss s h)

none-Unnamed : (ss : List Submission) (id : Option Text) → chosen_one ss id ≡ none → Unnamed id ss
none-Unnamed ss none h = tt
none-Unnamed ss (some []) h = tt
none-Unnamed [] (some (c ∷ cs)) h = tt
none-Unnamed (s ∷ ss) (some (c ∷ cs)) h = elim (Bool-cases (same_text s.id (c ∷ cs))) [
  | inl e ↦ let w : some s ≡ none = rw e at h in absurd (cc)
  | inr e ↦ (
    λ same.
        let yes : same_text s.id (c ∷ cs) ≡ true =
          ap (λ (t : Text). same_text t (c ∷ cs)) same ∙ same_text_refl (c ∷ cs) in
        absurd (cc),
    none-Unnamed ss (some (c ∷ cs)) (rw e at h),
  )
]

latest-Chosen :
    (ss : List Submission) (id : Option Text)
    → chosen_one ss id ≡ none
    → Chosen ss id (latest_from none ss)
unfolding latest_from
latest-Chosen [] id h = nothing refl
latest-Chosen (s ∷ ss) id h =
    let r = latest_from-Newest s ss in
    rw r.result (newest r.newest_one (none-Unnamed (s ∷ ss) id h) r.among r.greatest)

-- Of the submissions that are being checked or are ready, the one that plays is that which the team
-- has named, if there is one; otherwise one with the greatest number; there is none only if there are
-- no such submissions.
pub effective_final_submission-Chosen :
    (ss : List Submission) (id : Option Text)
    → Chosen (eligible ss) id (effective_final_submission ss id)
unfolding effective_final_submission
effective_final_submission-Chosen ss id = go (chosen_one (eligible ss) id) refl
  where
    go :
        (o : Option Submission)
        → chosen_one (eligible ss) id ≡ o
        → Chosen
            (eligible ss)
            id
            (elim o [ some s ↦ some s | none ↦ latest_from none (eligible ss) ])
    go none e = latest-Chosen (eligible ss) id e
    go (some s) e = choice (eligible ss) id s e

ready_only :
    (ss : List Submission)
    → eligible (filter (λ (s : Submission). is_ready s.status) ss) ≡ ready_ones ss
ready_only [] = refl
ready_only (s ∷ ss) = go s.status refl (ready_only ss)
  where
    go :
        (status : SubmissionStatus)
        → s.status ≡ status
        → eligible (filter (λ (t : Submission). is_ready t.status) ss) ≡ ready_ones ss
        → eligible (filter (λ (t : Submission). is_ready t.status) (s ∷ ss)) ≡ ready_ones (s ∷ ss)
    go ready e rest = simp e (ap (λ (r : List Submission). s ∷ r) rest)
    go checking e rest = simp e rest
    go build_failed e rest = simp e rest
    go smoke_failed e rest = simp e rest

-- Of the submissions that are ready, the one that is sealed is that which the team has named, if there
-- is one; otherwise one with the greatest number; there is none only if none is ready.
pub sealed_submission-Chosen :
    (ss : List Submission) (id : Option Text) → Chosen (ready_ones ss) id (sealed_submission ss id)
unfolding sealed_submission
sealed_submission-Chosen ss id =
    subst (λ l. Chosen l id (sealed_submission ss id)) (ready_only ss)
      (effective_final_submission-Chosen (filter (λ (s : Submission). is_ready s.status) ss) id)
