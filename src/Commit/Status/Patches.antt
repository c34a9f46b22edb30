-- ===== src/Commit/Status/Patches.antt =====
-- What each writer of the status changes on the fresh copy, given the caller's object.
use git_change_operator.Base.{ℕ, Text, Option, none, some, List, ◌∷◌, if◌then◌else◌, is_nil}
use git_change_operator.Base.{take, length, ltb}
use git_change_operator.Base.Words.{Time}
use git_change_operator.Api.Commit.{GitCommit, GitCommitPhase, ExecutionRecord}

-- `if len(xs) > 0 { ys = xs }`
abbrev pub kept {ℓ} : {A : Type ℓ} → List A → List A → List A
kept xs ys = if is_nil xs then ys else xs

-- `if p != nil { q = p }`
abbrev pub kept_time : Option Time → Option Time → Option Time
kept_time none q = q
kept_time (some t) q = some t

unfoldable pub patch_status : GitCommitPhase → Text → Time → GitCommit → GitCommit → GitCommit
patch_status phase message now old fresh = record fresh {
  status = record fresh.status {
    phase = phase;
    message = message;
    last_sync = some now;
    rest_api_statuses = kept old.status.rest_api_statuses fresh.status.rest_api_statuses;
    commit_sha = kept old.status.commit_sha fresh.status.commit_sha;
  };
}

unfoldable pub patch_schedule_status :
    GitCommitPhase → Text → Time → GitCommit → GitCommit → GitCommit
patch_schedule_status phase message now old fresh = record fresh {
  status = record fresh.status {
    phase = phase;
    message = message;
    last_sync = some now;
    last_scheduled_time = kept_time old.status.last_scheduled_time fresh.status.last_scheduled_time;
    next_scheduled_time = kept_time old.status.next_scheduled_time fresh.status.next_scheduled_time;
    rest_api_statuses = kept old.status.rest_api_statuses fresh.status.rest_api_statuses;
    execution_history = kept old.status.execution_history fresh.status.execution_history;
  };
}

abbrev pub history_limit : GitCommit → ℕ
history_limit o = elim o.spec.max_execution_history [ none ↦ 10 | some n ↦ n ]

-- `if len(xs) > n { xs = xs[:n] }`
unfoldable pub trim {ℓ} : {A : Type ℓ} → ℕ → List A → List A
trim n xs = if ltb n (length xs) then take n xs else xs

unfoldable pub patch_execution :
    Text → GitCommitPhase → Text → Option Time → Time → GitCommit → GitCommit → GitCommit
patch_execution sha phase message next now old fresh = record fresh {
  status = record fresh.status {
    execution_history = trim (history_limit old) (entry ∷ fresh.status.execution_history);
    phase = phase;
    message = message;
    commit_sha = sha;
    last_sync = some now;
    last_scheduled_time = old.status.last_scheduled_time;
    next_scheduled_time = kept_time next fresh.status.next_scheduled_time;
  };
}
  where
    entry : ExecutionRecord
    entry = record { execution_time = now; commit_sha = sha; phase = phase; message = message }

unfoldable pub patch_next_time : Time → GitCommit → GitCommit
patch_next_time next fresh = record fresh {
  status = record fresh.status { next_scheduled_time = some next };
}
