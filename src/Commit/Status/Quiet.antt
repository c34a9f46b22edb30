-- ===== src/Commit/Status/Quiet.antt =====
-- What the writers of the status touch of the world outside.
use git_change_operator.Base.{Option, ℕ, zero, suc, inl, inr, not, ◌&&◌, Text, ◌==◌, Bool-cases}
use git_change_operator.Base.Words.{Time}
use git_change_operator.Effects.{Error, Result, ok, err, Exec, get, modify, is_conflict}
use git_change_operator.Effects.Moves.{Moves, Moves-if, Moves-raise, Keeps-bind, keeps_rules}
use git_change_operator.Api.Commit.{GitCommit, GitCommitPhase}
use git_change_operator.Platform.{Platform}
use git_change_operator.Platform.Frames.{IsStatusFrame}
use git_change_operator.Commit.Status.Patches.{patch_schedule_status, patch_status, patch_execution}
use git_change_operator.Commit.Status.{
  conclude_status, status_loop, update_status, execution_loop, record_execution, State, clock,
  fetch_fresh, try_update, max_retries, pause, settle, conclude_update, conclude_next,
  schedule_status_loop, update_schedule_status, next_time_loop, update_next_scheduled_time,
}

module _ (P : Platform) (I : P.World → Type 0) (F : IsStatusFrame P I) where
  abbrev pub Within : State P → Type 0
  Within s = I s.world

  pub fetch_fresh-Within : Moves Within Within (fetch_fresh P)
  fetch_fresh-Within = record { at = λ s h. F.get_commit _ _ s.world h }

  pub clock-Within : Moves Within Within (clock P)
  clock-Within = record { at = λ s h. F.now s.world h }

  pub try_update-Within : (o : GitCommit) → Moves Within Within (try_update P o)
  try_update-Within o = record { at = λ s h. F.update o s.world h }

  pub get-Within : {B : Type 0} (f : GitCommit → B) → Moves Within Within (get {W = P.World} f)
  get-Within f = record { at = λ s h. h }

  pub modify-Within : (f : GitCommit → GitCommit) → Moves Within Within (modify {W = P.World} f)
  modify-Within f = record { at = λ s h. h }

  pub ruleset within_rules =
      (keeps_rules, fetch_fresh-Within, clock-Within, try_update-Within, get-Within, modify-Within)

  settle-Within :
      (left : ℕ) (e : Error) (again : Exec (State P) Unit)
      → Moves Within Within again
      → Moves Within Within (settle P left e again)
  unfolding settle
  settle-Within left e again k = record {
    at = λ s h. elim (Bool-cases (is_conflict e && not (left == 0))) [
      | inl y ↦ rw y (k.at _ (F.sleep pause s.world h))
      | inr n ↦ rw n h
    ];
  }

  conclude_update-Within :
      (left : ℕ) (again : Exec (State P) Unit) (r : Result GitCommit)
      → Moves Within Within again
      → Moves Within Within (conclude_update P left again r)
  unfolding conclude_update
  conclude_update-Within left again (ok o) k = record { at = λ s h. h }
  conclude_update-Within left again (err e) k = settle-Within left e again k

  conclude_next-Within :
      (next : Time) (left : ℕ) (again : Exec (State P) Unit) (r : Result GitCommit)
      → Moves Within Within again
      → Moves Within Within (conclude_next P next left again r)
  unfolding conclude_next
  conclude_next-Within next left again (ok o) k = record { at = λ s h. h }
  conclude_next-Within next left again (err e) k = settle-Within left e again k

  schedule_status_loop-Within :
      (phase : GitCommitPhase) (message : Text) (n : ℕ)
      → Moves Within Within (schedule_status_loop P n phase message)
  unfolding schedule_status_loop
  schedule_status_loop-Within phase message zero = Moves-raise _
  schedule_status_loop-Within phase message (suc n) =
      let ih = schedule_status_loop-Within phase message n in
      Keeps-bind _ _ fetch_fresh-Within (λ fresh. Keeps-bind _ _ clock-Within (λ t.
        Keeps-bind _ _ (get-Within (λ o. o)) (λ old.
          Keeps-bind _ _ (try_update-Within (patch_schedule_status phase message t old fresh))
            (λ r. conclude_update-Within n _ r ih))))

  next_time_loop-Within : (next : Time) (n : ℕ) → Moves Within Within (next_time_loop P n next)
  unfolding next_time_loop
  next_time_loop-Within next zero = Moves-raise _
  next_time_loop-Within next (suc n) =
      let ih = next_time_loop-Within next n in
      Keeps-bind _ _ fetch_fresh-Within
        (λ fresh. Keeps-bind _ _ (try_update-Within _) (λ r. conclude_next-Within next n _ r ih))

  pub update_schedule_status-Within :
      (phase : GitCommitPhase) (message : Text)
      → Moves Within Within (update_schedule_status P phase message)
  unfolding update_schedule_status
  update_schedule_status-Within phase message =
      schedule_status_loop-Within phase message max_retries

  pub update_next_scheduled_time-Within :
      (next : Time) → Moves Within Within (update_next_scheduled_time P next)
  unfolding update_next_scheduled_time
  update_next_scheduled_time-Within next = next_time_loop-Within next max_retries

  conclude_status-Within :
      (again : Exec (State P) Unit) (r : Result GitCommit)
      → Moves Within Within again
      → Moves Within Within (conclude_status P again r)
  unfolding conclude_status
  conclude_status-Within again (ok o) k = record { at = λ s h. h }
  conclude_status-Within again (err e) k = Moves-if (is_conflict e) _ _ k (Moves-raise e)

  status_loop-Within :
      (phase : GitCommitPhase) (message : Text) (n : ℕ)
      → Moves Within Within (status_loop P n phase message)
  unfolding status_loop
  status_loop-Within phase message zero = Moves-raise _
  status_loop-Within phase message (suc n) =
      let ih = status_loop-Within phase message n in
      Keeps-bind _ _ fetch_fresh-Within (λ fresh. Keeps-bind _ _ clock-Within (λ t.
        Keeps-bind _ _ (get-Within (λ o. o)) (λ old.
          Keeps-bind _ _ (try_update-Within (patch_status phase message t old fresh))
            (λ r. conclude_status-Within _ r ih))))

  execution_loop-Within :
      (sha : Text) (phase : GitCommitPhase) (message : Text) (next : Option Time) (n : ℕ)
      → Moves Within Within (execution_loop P n sha phase message next)
  unfolding execution_loop
  execution_loop-Within sha phase message next zero = Moves-raise _
  execution_loop-Within sha phase message next (suc n) =
      let ih = execution_loop-Within sha phase message next n in
      Keeps-bind _ _ fetch_fresh-Within (λ fresh. Keeps-bind _ _ clock-Within (λ t.
        Keeps-bind _ _ (get-Within (λ o. o)) (λ old.
          Keeps-bind _ _ (try_update-Within (patch_execution sha phase message next t old fresh))
            (λ r. conclude_update-Within n _ r ih))))

  pub update_status-Within :
      (phase : GitCommitPhase) (message : Text)
      → Moves Within Within (update_status P phase message)
  unfolding update_status
  update_status-Within phase message = status_loop-Within phase message max_retries

  pub record_execution-Within :
      (sha : Text) (phase : GitCommitPhase) (message : Text) (next : Option Time)
      → Moves Within Within (record_execution P sha phase message next)
  unfolding record_execution
  record_execution-Within sha phase message next =
      execution_loop-Within sha phase message next max_retries
