-- ===== src/BotCup/Submission/Days.antt =====
-- Days and windows.
use Prim.Native.Nat.{◌/◌}
use ottv.Prelude.{
  ℕ, ◌+◌, ◌*◌, ◌≤◌, ◌<◌, ◌≡◌, ◌↔◌, refl, true, false, none, pos, ◌-ℤ◌, arith, inl, inr, Bool-cases,
}
use ottv.BotCup.Submission.{
  day, vietnam_offset, vietnam_day_start, CupEvent, reached, submission_window,
  final_submission_locked,
}

-- The day of a time begins at a midnight of Vietnam, which is seven hours before one of UTC, is not
-- after the time and is less than a day before it.
pub vietnam_day_start-Midnight :
    (now : ℕ)
    → (k : ℕ) × (vietnam_day_start now ≡ pos (k * day) -ℤ pos vietnam_offset)
      × (k * day ≤ now + vietnam_offset)
      × (now + vietnam_offset < k * day + day)
unfolding vietnam_day_start
vietnam_day_start-Midnight now = ((now + vietnam_offset) / day, refl, omega arith, omega arith)

-- No upload is let through once the final submission is locked: it is let through exactly when
-- practice has opened and the code is not frozen.
pub submission_window_iff :
    (event : CupEvent) (now : ℕ)
    → (submission_window event now ≡ none)
      ↔ ((reached event.practice_opens_at now ≡ true) × (final_submission_locked event now ≡ false))
unfolding submission_window final_submission_locked
submission_window_iff event now = elim (Bool-cases (reached event.code_freeze_at now)) [
  | inl e ↦ rw e (λ h. absurd (cc), λ (h, k). absurd (cc))
  | inr e ↦ rw e (elim (Bool-cases (reached event.practice_opens_at now)) [
    | inl f ↦ rw f (λ h. (refl, refl), λ h. refl)
    | inr f ↦ rw f (λ h. absurd (cc), λ (h, k). absurd (cc))
  ])
]
