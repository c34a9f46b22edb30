-- ===== src/Pull/Status/Quiet.antt =====
-- What the writers of the status touch of the world outside.
use git_change_operator.Base.{ℕ, zero, suc, inl, inr, not, ◌&&◌, Text, ◌==◌, Bool-cases}
use git_change_operator.Base.Words.{Time}
use git_change_operator.Effects.{Error, Result, ok, err, Exec, get, modify, outside, is_conflict}
use git_change_operator.Effects.Moves.{Moves, Moves-raise, Keeps-bind, keeps_rules}
use git_change_operator.Api.Pull.{PullRequest, PullRequestPhase}
use git_change_operator.Platform.{Platform}
use git_change_operator.Platform.Frames.{IsPullStatusFrame}
use git_change_operator.Pull.Status.{
  State, clock, fetch_fresh, try_update, max_retries, pause, settle, conclude, retry_loop,
  write_status, update_status, patched_execution, patched_status, patched_next, record_pr_execution,
  update_schedule_status, update_next_scheduled_time,
}

module _ (P : Platform) (I : P.World → Type 0) (F : IsPullStatusFrame P I) where
  abbrev pub Within : State P → Type 0
  Within s = I s.world

  pub fetch_fresh-Within : Moves Within Within (fetch_fresh P)
  fetch_fresh-Within = record { at = λ s h. F.get_pull _ _ s.world h }

  pub clock-Within : Moves Within Within (clock P)
  clock-Within = record { at = λ s h. F.now s.world h }

  pub update-Within : (o : PullRequest) → Moves Within Within (outside (P.update_pull_status o))
  update-Within o = record { at = λ s h. F.update o s.world h }

  try_update-Within : (o : PullRequest) → Moves Within Within (try_update P o)
  try_update-Within o = record { at = λ s h. F.update o s.world h }

  pub get-Within : {B : Type 0} (f : PullRequest → B) → Moves Within Within (get {W = P.World} f)
  get-Within f = record { at = λ s h. h }

  pub modify-Within : (f : PullRequest → PullRequest) → Moves Within Within (modify {W = P.World} f)
  modify-Within f = record { at = λ s h. h }

  pub ruleset within_rules =
      (keeps_rules, fetch_fresh-Within, clock-Within, update-Within, get-Within, modify-Within)

  write_status-Within :
      (phase : PullRequestPhase) (message : Text)
      → Moves Within Within (write_status P phase message)
  unfolding write_status
  write_status-Within phase message = search within_rules depth 20

  pub update_status-Within :
      (phase : PullRequestPhase) (message : Text)
      → Moves Within Within (update_status P phase message)
  unfolding update_status
  update_status-Within phase message = write_status-Within phase message

  settle-Within :
      (left : ℕ) (e : Error) (again : Exec (State P) Unit)
      → Moves Within Within again
      → Moves Within Within (settle P left e again)
  unfolding settle
  settle-Within left e again k = record {
    at = λ s h. elim (Bool-cases (is_conflict e && not (left == 0))) [
      | inl y ↦ rw y (k.at _ (F.sleep pause s.world h))
      | inr n ↦ rw n h
    ];
  }

  conclude-Within :
      (store : PullRequest → PullRequest → PullRequest) (left : ℕ) (again : Exec (State P) Unit)
      (r : Result PullRequest)
      → Moves Within Within again
      → Moves Within Within (conclude P store left again r)
  unfolding conclude
  conclude-Within store left again (ok o) k = record { at = λ s h. h }
  conclude-Within store left again (err e) k = settle-Within left e again k

  retry_loop-Within :
      (failure : Error) (patched : Exec (State P) PullRequest)
      (store : PullRequest → PullRequest → PullRequest)
      → Moves Within Within patched
      → (n : ℕ) → Moves Within Within (retry_loop P n failure patched store)
  unfolding retry_loop
  retry_loop-Within failure patched store k zero = Moves-raise _
  retry_loop-Within failure patched store k (suc n) =
      let ih = retry_loop-Within failure patched store k n in
      Keeps-bind _ _ k
        (λ o. Keeps-bind _ _ (try_update-Within o) (λ r. conclude-Within store n _ r ih))

  patched_execution-Within :
      (number : ℕ) (url : Text) (phase : PullRequestPhase) (message : Text)
      → Moves Within Within (patched_execution P number url phase message)
  unfolding patched_execution
  patched_execution-Within number url phase message = search within_rules depth 20

  patched_status-Within :
      (phase : PullRequestPhase) (message : Text)
      → Moves Within Within (patched_status P phase message)
  unfolding patched_status
  patched_status-Within phase message = search within_rules depth 20

  patched_next-Within : (next : Time) → Moves Within Within (patched_next P next)
  unfolding patched_next
  patched_next-Within next = search within_rules depth 20

  pub record_pr_execution-Within :
      (number : ℕ) (url : Text) (phase : PullRequestPhase) (message : Text)
      → Moves Within Within (record_pr_execution P number url phase message)
  unfolding record_pr_execution
  record_pr_execution-Within number url phase message =
      retry_loop-Within _ _ _ (patched_execution-Within number url phase message) max_retries

  pub update_schedule_status-Within :
      (phase : PullRequestPhase) (message : Text)
      → Moves Within Within (update_schedule_status P phase message)
  unfolding update_schedule_status
  update_schedule_status-Within phase message =
      retry_loop-Within _ _ _ (patched_status-Within phase message) max_retries

  pub update_next_scheduled_time-Within :
      (next : Time) → Moves Within Within (update_next_scheduled_time P next)
  unfolding update_next_scheduled_time
  update_next_scheduled_time-Within next =
      retry_loop-Within _ _ _ (patched_next-Within next) max_retries
