-- ===== src/Commit/Status.antt =====
-- The four writers of a GitCommit's status, with their retries on conflicts.
pub mod Patches
pub mod Laws
pub mod Reports
pub mod Quiet
pub mod Retries
pub mod Attempts
pub mod Blind
use git_change_operator.Base.{ℕ, zero, suc, Text, text, Bool, not, ◌&&◌, Option, none, some}
use git_change_operator.Base.{if◌then◌else◌, ◌==◌}
use git_change_operator.Base.Words.{Time}
use git_change_operator.Effects.{Error, other, Result, ok, err, is_conflict, Exec, attempt, raise}
use git_change_operator.Effects.{◌>>=◌, ◌>>◌, Held, outside, get, modify}
use git_change_operator.Api.Commit.{GitCommit, GitCommitStatus, GitCommitPhase}
use git_change_operator.Platform.{Platform}
use Patches.{patch_status, patch_schedule_status, patch_execution, patch_next_time}

-- `const maxRetries = 3`
abbrev pub max_retries : ℕ
max_retries = 3

abbrev too_many : Error
too_many = other (text "failed to update status after 3 retries due to conflicts")

-- The error behind the other loops, whose last attempt returns before it.
abbrev exhausted : Error
exhausted = other (text "failed to update status after 3 retries")

abbrev next_time_exhausted : Error
next_time_exhausted = other (text "failed to update next scheduled time after 3 retries")

-- `time.Millisecond * 100`
abbrev pause : ℕ
pause = 100000000

-- `*gitCommit = *fresh`
abbrev replace_all : GitCommit → GitCommit → GitCommit
replace_all updated old = updated

-- `gitCommit.Status = fresh.Status`
abbrev replace_status : GitCommit → GitCommit → GitCommit
replace_status updated old = record old { status = updated.status }

module _ (P : Platform) where
  open P use {World, now, sleep, get_commit, update_commit_status}

  abbrev pub State : Type 0
  State = Held World GitCommit

  -- `metav1.Now()`
  abbrev pub clock : Exec State Time
  clock = outside (λ w. let (t, w') = now w in (ok t, w'))

  -- `r.Get(ctx, client.ObjectKeyFromObject(gitCommit), fresh)`
  abbrev pub fetch_fresh : Exec State GitCommit
  fetch_fresh s = outside (get_commit s.object.namespace s.object.name) s

  abbrev pub try_update : GitCommit → Exec State (Result GitCommit)
  try_update o = attempt (outside (update_commit_status o))

  -- After the update of `updateStatus`: on a conflict it tries again at once.
  conclude_status : Exec State Unit → Result GitCommit → Exec State Unit
  conclude_status again (ok updated) = modify (replace_all updated)
  conclude_status again (err e) = if is_conflict e then again else raise e

  pub status_loop : ℕ → GitCommitPhase → Text → Exec State Unit
  unfolding conclude_status
  status_loop zero phase message = raise too_many
  status_loop (suc left) phase message =
      let again = status_loop left phase message in
      do
        fresh ← fetch_fresh
        t ← clock
        old ← get (λ o. o)
        r ← try_update (patch_status phase message t old fresh)
        conclude_status again r

  unfoldable pub update_status : GitCommitPhase → Text → Exec State Unit
  unfolding status_loop
  update_status phase message = status_loop max_retries phase message

  -- After an update that failed: a conflict is tried again after a pause, the last one is returned.
  settle : ℕ → Error → Exec State Unit → Exec State Unit
  settle left e again s =
      if is_conflict e && not (left == 0)
      then again (record s { world = sleep pause s.world })
      else (err e, s)

  conclude_update : ℕ → Exec State Unit → Result GitCommit → Exec State Unit
  unfolding settle
  conclude_update left again (ok updated) = modify (replace_status updated)
  conclude_update left again (err e) = settle left e again

  conclude_next : Time → ℕ → Exec State Unit → Result GitCommit → Exec State Unit
  unfolding settle
  conclude_next next left again (ok updated) = modify (patch_next_time next)
  conclude_next next left again (err e) = settle left e again

  pub execution_loop : ℕ → Text → GitCommitPhase → Text → Option Time → Exec State Unit
  unfolding conclude_update
  execution_loop zero sha phase message next = raise exhausted
  execution_loop (suc left) sha phase message next =
      let again = execution_loop left sha phase message next in
      do
        fresh ← fetch_fresh
        t ← clock
        old ← get (λ o. o)
        r ← try_update (patch_execution sha phase message next t old fresh)
        conclude_update left again r

  unfoldable pub record_execution : Text → GitCommitPhase → Text → Option Time → Exec State Unit
  unfolding execution_loop
  record_execution sha phase message next = execution_loop max_retries sha phase message next

  pub schedule_status_loop : ℕ → GitCommitPhase → Text → Exec State Unit
  unfolding conclude_update
  schedule_status_loop zero phase message = raise exhausted
  schedule_status_loop (suc left) phase message =
      let again = schedule_status_loop left phase message in
      do
        fresh ← fetch_fresh
        t ← clock
        old ← get (λ o. o)
        r ← try_update (patch_schedule_status phase message t old fresh)
        conclude_update left again r

  unfoldable pub update_schedule_status : GitCommitPhase → Text → Exec State Unit
  unfolding schedule_status_loop
  update_schedule_status phase message = schedule_status_loop max_retries phase message

  next_time_loop : ℕ → Time → Exec State Unit
  unfolding conclude_next
  next_time_loop zero next = raise next_time_exhausted
  next_time_loop (suc left) next =
      let again = next_time_loop left next in
      do
        fresh ← fetch_fresh
        r ← try_update (patch_next_time next fresh)
        conclude_next next left again r

  unfoldable pub update_next_scheduled_time : Time → Exec State Unit
  unfolding next_time_loop
  update_next_scheduled_time next = next_time_loop max_retries next
