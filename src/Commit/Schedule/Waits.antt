-- ===== src/Commit/Schedule/Waits.antt =====
-- How long `handleScheduledGitCommit` waits.
use git_change_operator.Base.{
  text, ◌≡◌, refl, ◌⊎◌, some, ◌≤◌, Text, Bool-cases, inl, inr, none, arith, ltb,
}
use git_change_operator.Base.Words.{Time, ℤ, pos, negsuc, minute}
use git_change_operator.Effects.{Error, Result, err, Result-cases}
use git_change_operator.Effects.Rules.{Post}
use git_change_operator.Platform.{Platform}
use git_change_operator.Api.Commit.{committed}
use git_change_operator.Commit.Status.{State, update_next_scheduled_time, record_execution}
use git_change_operator.Commit.Outcome.{Outcome, clamp_wait}
use git_change_operator.Commit.Schedule.{next_changes, wait_for_next, finish_execution}

-- At least a minute.
abbrev pub IsLong : ℤ → Type 0
IsLong (pos n) = minute ≤ n
IsLong (negsuc n) = ⊥

clamp_wait-IsLong : (d : ℤ) → IsLong (clamp_wait d)
unfolding clamp_wait
clamp_wait-IsLong (pos n) = elim (Bool-cases (ltb n minute)) [
  | inl e ↦ rw e (omega arith)
  | inr e ↦ rw e (ground arith)
]
clamp_wait-IsLong (negsuc n) = omega arith

-- What a reconcile asks for: a minute or more, or an error with `E`. controller-runtime reads the wait
-- only where there is no error.
abbrev pub Asks : (Error → Type 0) → Outcome → Type 0
Asks E o = elim o.error [ none ↦ IsLong o.requeue_after | some x ↦ E x ]

module _ (P : Platform) where
  -- The error of the update of the next time, and that of the record of the execution behind it.
  abbrev pub UpdateFails : P.Cron → Time → State P → Error → Type 0
  UpdateFails cron started s x = (update_next_scheduled_time P (P.next cron started) s).0 ≡ err x

  abbrev pub RecordFails : P.Cron → Time → Text → State P → Error → Type 0
  RecordFails cron started sha s x =
      let t = (update_next_scheduled_time P (P.next cron started) s).1 in
      (record_execution P sha committed (text "Git commit completed successfully") none t).0 ≡ err x

  abbrev pub Waits : P.Cron → Time → State P → Result Outcome × State P → Type 0
  Waits cron started s p = Post (λ o t. Asks (λ x. ⊥) o) (λ x t. UpdateFails cron started s x) p

  abbrev pub Finishes : P.Cron → Time → Text → State P → Result Outcome × State P → Type 0
  Finishes cron started sha s p =
      Post (λ o t. Asks (λ x. UpdateFails cron started s x ⊎ RecordFails cron started sha s x) o)
        (λ x t. ⊥) p

  wait_for_next-Waits :
      (cron : P.Cron) (started : Time) (s : State P)
      → Waits cron started s (wait_for_next P cron started s)
  unfolding wait_for_next
  wait_for_next-Waits cron started s =
      elim (Bool-cases (next_changes s.object.status.next_scheduled_time (P.next cron started))) [
        | inr n ↦ rw n (clamp_wait-IsLong _)
        | inl y ↦ elim (Result-cases (update_next_scheduled_time P (P.next cron started) s).0) [
          | inl (u, e) ↦ rw (y, e) (clamp_wait-IsLong _)
          | inr (x, e) ↦ rw (y, e) refl
        ]
      ]

  finish_execution-Finishes :
      (cron : P.Cron) (started : Time) (sha : Text) (s : State P)
      → Finishes cron started sha s (finish_execution P cron started sha s)
  unfolding finish_execution
  finish_execution-Finishes cron started sha s =
      let (r, t) = update_next_scheduled_time P (P.next cron started) s in
      elim (Result-cases r) [
        | inr (x, e) ↦ rw e (inl refl)
        | inl (u, e) ↦
            elim (Result-cases
              (record_execution P sha committed (text "Git commit completed successfully") none
                t).0) [
                  | inr (x, f) ↦ rw (e, f) (inr refl)
                  | inl (v, f) ↦ rw (e, f) (clamp_wait-IsLong _)
                ]
      ]

  -- A scheduled GitCommit that is not due asks for its next reconcile a minute later or more, whatever
  -- the clock and the schedule say, without an error beside the wait; it ends in an error only if the
  -- update of its next time fails with that error. One whose scheduled run has made its commit returns
  -- an outcome: a wait of a minute or more without an error, or the error with which the update of its
  -- next time fails, or the record of the execution behind that.
  pub Waits-IsLong :
      (cron : P.Cron) (started : Time) (sha : Text) (s : State P)
      → Waits cron started s (wait_for_next P cron started s)
        × Finishes cron started sha s (finish_execution P cron started sha s)
  Waits-IsLong cron started sha s =
      (wait_for_next-Waits cron started s, finish_execution-Finishes cron started sha s)
