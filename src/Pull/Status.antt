-- ===== src/Pull/Status.antt =====
-- The writers of a PullRequest's status: `updateStatus`, which updates the object that it has once, and
-- three that patch a fresh copy and try again on conflicts.
pub mod Quiet
pub mod Retries
pub mod Reports
use git_change_operator.Base.{ℕ, zero, suc, Text, text, not, ◌&&◌, Option, none, some, List, ◌∷◌}
use git_change_operator.Base.{if◌then◌else◌, ◌==◌}
use git_change_operator.Base.Words.{Time}
use git_change_operator.Effects.{
  Error, other, Result, ok, err, is_conflict, Exec, attempt, raise, pure,
}
use git_change_operator.Effects.{◌>>=◌, ◌>>◌, Held, outside, get, modify}
use git_change_operator.Api.Pull.{
  PullRequest, PullRequestStatus, PullRequestPhase, PrExecutionRecord,
}
use git_change_operator.Platform.{Platform}
use git_change_operator.Commit.Status.Patches.{kept, kept_time, trim}

-- `const maxRetries = 3`
abbrev pub max_retries : ℕ
max_retries = 3

-- The errors behind the loops, whose last attempt returns before them.
abbrev exhausted : Error
exhausted = other (text "failed to update status after 3 retries")

abbrev next_time_exhausted : Error
next_time_exhausted = other (text "failed to update next scheduled time after 3 retries")

-- `time.Millisecond * 100`
abbrev pub pause : ℕ
pause = 100000000

-- `updateStatus` before its update.
abbrev pub report_phase : PullRequestPhase → Text → Time → PullRequest → PullRequest
report_phase phase message now o = record o {
  status = record o.status { phase = phase; message = message; last_sync = some now };
}

unfoldable pub patch_schedule_status :
    PullRequestPhase → Text → Time → PullRequest → PullRequest → PullRequest
patch_schedule_status phase message now old fresh = record fresh {
  status = record fresh.status {
    phase = phase;
    message = message;
    last_sync = some now;
    last_scheduled_time = kept_time old.status.last_scheduled_time fresh.status.last_scheduled_time;
    next_scheduled_time = kept_time old.status.next_scheduled_time fresh.status.next_scheduled_time;
    rest_api_statuses = kept old.status.rest_api_statuses fresh.status.rest_api_statuses;
    execution_history = kept old.status.execution_history fresh.status.execution_history;
  };
}

abbrev pub history_limit : PullRequest → ℕ
history_limit o = elim o.spec.max_execution_history [ none ↦ 10 | some n ↦ n ]

-- The record of an execution.
abbrev pub entry : ℕ → Text → PullRequestPhase → Text → Time → PrExecutionRecord
entry number url phase message now = record {
  execution_time = now;
  pull_request_number = number;
  pull_request_url = url;
  phase = phase;
  message = message;
}

unfoldable pub patch_execution :
    ℕ → Text → PullRequestPhase → Text → Time → PullRequest → PullRequest → PullRequest
patch_execution number url phase message now old fresh = record fresh {
  status = record fresh.status {
    execution_history =
        trim (history_limit old)
          (entry number url phase message now ∷ fresh.status.execution_history);
    phase = phase;
    message = message;
    pull_request_number = number;
    pull_request_url = url;
    last_sync = some now;
    last_scheduled_time = old.status.last_scheduled_time;
  };
}

unfoldable pub patch_next_time : Time → PullRequest → PullRequest
patch_next_time next fresh = record fresh {
  status = record fresh.status { next_scheduled_time = some next };
}

-- `pullRequest.Status = fresh.Status`
abbrev pub replace_status : PullRequest → PullRequest → PullRequest
replace_status updated old = record old { status = updated.status }

module _ (P : Platform) where
  open P use {World, now, sleep, get_pull, update_pull_status}

  abbrev pub State : Type 0
  State = Held World PullRequest

  -- `metav1.Now()`
  abbrev pub clock : Exec State Time
  clock = outside (λ w. let (t, w') = now w in (ok t, w'))

  -- `r.Get(ctx, client.ObjectKeyFromObject(pullRequest), fresh)`
  abbrev pub fetch_fresh : Exec State PullRequest
  fetch_fresh s = outside (get_pull s.object.namespace s.object.name) s

  abbrev pub try_update : PullRequest → Exec State (Result PullRequest)
  try_update o = attempt (outside (update_pull_status o))

  -- An update that succeeds fills the object in; one that fails leaves the new fields in it.
  write_status : PullRequestPhase → Text → Exec State Unit
  write_status phase message = do
    t ← clock
    modify (report_phase phase message t)
    o ← get (λ o. o)
    updated ← outside (update_pull_status o)
    modify (λ _. updated)

  unfoldable pub update_status : PullRequestPhase → Text → Exec State Unit
  unfolding write_status
  update_status = write_status

  -- After an update that failed: a conflict is tried again after a pause, the last one is returned.
  settle : ℕ → Error → Exec State Unit → Exec State Unit
  settle left e again s =
      if is_conflict e && not (left == 0)
      then again (record s { world = sleep pause s.world })
      else (err e, s)

  -- The caller's object takes over what was stored.
  conclude :
      (PullRequest → PullRequest → PullRequest)
      → ℕ
      → Exec State Unit
      → Result PullRequest
      → Exec State Unit
  conclude store left again (ok updated) = modify (store updated)
  conclude store left again (err e) = settle left e again

  -- The loop of the three writers: patch a fresh copy, update, and store what came of it.
  pub retry_loop :
      ℕ
      → Error
      → Exec State PullRequest
      → (PullRequest → PullRequest → PullRequest)
      → Exec State Unit
  unfolding conclude settle
  retry_loop zero failure patched store = raise failure
  retry_loop (suc left) failure patched store =
      let again = retry_loop left failure patched store in
      do o ← patched; r ← try_update o; conclude store left again r

  pub patched_execution : ℕ → Text → PullRequestPhase → Text → Exec State PullRequest
  patched_execution number url phase message = do
    fresh ← fetch_fresh
    t ← clock
    old ← get (λ o. o)
    pure (patch_execution number url phase message t old fresh)

  patched_status : PullRequestPhase → Text → Exec State PullRequest
  patched_status phase message = do
    fresh ← fetch_fresh
    t ← clock
    old ← get (λ o. o)
    pure (patch_schedule_status phase message t old fresh)

  patched_next : Time → Exec State PullRequest
  patched_next next = do fresh ← fetch_fresh; pure (patch_next_time next fresh)

  unfoldable pub record_pr_execution : ℕ → Text → PullRequestPhase → Text → Exec State Unit
  unfolding retry_loop patched_execution
  record_pr_execution number url phase message =
      retry_loop max_retries exhausted (patched_execution number url phase message) replace_status

  unfoldable pub update_schedule_status : PullRequestPhase → Text → Exec State Unit
  unfolding retry_loop patched_status
  update_schedule_status phase message =
      retry_loop max_retries exhausted (patched_status phase message) replace_status

  unfoldable pub update_next_scheduled_time : Time → Exec State Unit
  unfolding retry_loop patched_next
  update_next_scheduled_time next =
      retry_loop max_retries next_time_exhausted (patched_next next) (λ _. patch_next_time next)
