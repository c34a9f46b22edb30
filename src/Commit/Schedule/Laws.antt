-- ===== src/Commit/Schedule/Laws.antt =====
-- When a scheduled GitCommit runs, and what a reconcile between its times does.
use git_change_operator.Base.{◌≡◌, refl, ◌≤◌, ◌↔◌, ◌⊎◌, inl, inr, Bool, true, false}
use git_change_operator.Base.{text, ◌++◌, Option, none, some, leb, if◌then◌else◌, arith}
use git_change_operator.Base.Words.{Time}
use git_change_operator.Effects.{error_text, Result, ok, err}
use git_change_operator.Effects.Moves.{Moves, Moves-raise, Keeps-bind}
use git_change_operator.Api.Commit.{failed}
use git_change_operator.Platform.{Platform}
use git_change_operator.Commit.Status.{State}
use git_change_operator.Platform.Frames.{IsStatusFrame}
use git_change_operator.Commit.Status.Quiet.{
  Within, update_schedule_status-Within, update_next_scheduled_time-Within, within_rules,
}
use git_change_operator.Commit.Schedule.{
  should_execute, wait_for_next, with_schedule, suspended, by_parse, by_schedule, handle_scheduled,
}

-- A commit is due exactly when none has run yet, or a next time is stored and has come.
pub should_execute_iff :
    (last next : Option Time) (now : Time)
    → (should_execute last next now ≡ true)
      ↔ ((last ≡ none) ⊎ (t : Time) × (next ≡ some t) × (t ≤ now))
unfolding should_execute
should_execute_iff none next now = (λ e. inl refl, λ h. refl)
should_execute_iff (some l) none now = (λ e. ground arith, λ h. never h)
  where
    never : (some l ≡ none) ⊎ (u : Time) × (none ≡ some u) × (u ≤ now) → false ≡ true
    never (inl e) = ground arith
    never (inr (u, e, h)) = ground arith
should_execute_iff (some l) (some t) now = (λ e. inr (t, refl, ground arith), λ h. due h)
  where
    due : (some l ≡ none) ⊎ (u : Time) × (some t ≡ some u) × (u ≤ now) → leb t now ≡ true
    due (inl e) = ground arith
    due (inr (u, e, h)) = ground arith

module _ (P : Platform) (I : P.World → Type 0) (F : IsStatusFrame P I) where
  pub wait_for_next-Within :
      (cron : P.Cron) (t : Time) → Moves (Within P I F) (Within P I F) (wait_for_next P cron t)
  unfolding wait_for_next
  wait_for_next-Within cron t =
      search (within_rules, update_schedule_status-Within, update_next_scheduled_time-Within) depth
        20

  pub suspended-Within : Moves (Within P I F) (Within P I F) (suspended P)
  unfolding suspended
  suspended-Within =
      search (within_rules, update_schedule_status-Within, update_next_scheduled_time-Within) depth
        20

  -- What is not due, at the state that the clock is read in.
  with_schedule-Within :
      (cron : P.Cron) (s : State P)
      → I s.world
      → should_execute s.object.status.last_scheduled_time s.object.status.next_scheduled_time
          (P.now s.world).0
        ≡ false
      → I (with_schedule P cron s).1.world
  unfolding with_schedule
  with_schedule-Within cron s h e =
      rw e ((wait_for_next-Within cron (P.now s.world).0).at _ (F.now s.world h))

  -- A scheduled GitCommit that is not due (`should_execute` is false at the clock's time), is suspended,
  -- or has a schedule that does not parse does nothing to the world but what reading and writing the
  -- status of GitCommits, reading the clock and pausing do: each property `I` of the world that these
  -- four calls keep still holds behind `handleScheduledGitCommit`. So it clones and pushes nothing,
  -- writes no file and calls no REST API.
  pub handle_scheduled-Within :
      (s : State P)
      → I s.world
      → ((cron : P.Cron)
          → s.object.spec.suspend ≡ false
          → P.parse_cron s.object.spec.schedule ≡ ok cron
          → should_execute s.object.status.last_scheduled_time s.object.status.next_scheduled_time
              (P.now s.world).0
            ≡ false)
      → I (handle_scheduled P s).1.world
  unfolding handle_scheduled by_schedule by_parse
  handle_scheduled-Within s h due =
      by_suspend s.object.spec.suspend (P.parse_cron s.object.spec.schedule)
        (λ cron e f. with_schedule-Within cron s h (due cron e f))
    where
      by_suspend :
          (b : Bool) (r : Result P.Cron)
          → ((cron : P.Cron) → b ≡ false → r ≡ ok cron → I (with_schedule P cron s).1.world)
          → I ((if b then suspended P else by_parse P r) s).1.world
      by_suspend true r k = suspended-Within.at s h
      by_suspend false (ok cron) k = k cron refl refl
      by_suspend false (err e) k =
          (Keeps-bind _ _
              (update_schedule_status-Within P I F failed
                (text "Invalid cron schedule: " ++ error_text e))
              (λ u. Moves-raise e)).at
            s h
