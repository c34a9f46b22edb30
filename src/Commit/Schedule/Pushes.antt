-- ===== src/Commit/Schedule/Pushes.antt =====
-- The pushes of `handleScheduledGitCommit`.
use git_change_operator.Base.{Text, text, ◌++◌, Bool, true, false, Option, none, some, ltb, length}
use git_change_operator.Base.Words.{Time}
use git_change_operator.Effects.{error_text, Result, ok, err, Exec, outside, ◌>>=◌}
use git_change_operator.Effects.Moves.{
  Moves, Moves-raise, Moves-if, Moves-bind, Moves-bind_attempt, Within-outside, Keeps-bind,
  keeps_rules,
}
use git_change_operator.Api.Rest.{RestApiStatus}
use git_change_operator.Api.Commit.{GitCommit, running, failed}
use git_change_operator.Platform.{Platform, BasicAuth}
use git_change_operator.Platform.Frames.{IsRunFrame}
use git_change_operator.Commit.Secrets.Frames.{get_auth_from_secret-Moves}
use git_change_operator.Commit.Status.{State}
use git_change_operator.Commit.Status.Quiet.{
  Within, clock-Within, get-Within, modify-Within, record_execution-Within,
  update_schedule_status-Within, update_next_scheduled_time-Within,
}
use git_change_operator.Commit.Secrets.{get_auth_from_secret}
use git_change_operator.Commit.RestCheck.{check_rest_api_conditions}
use git_change_operator.Commit.RestCheck.Frames.{check_rest_api_conditions-Within}
use git_change_operator.Commit.Writing.{perform_git_commit}
use git_change_operator.Commit.Writing.Frames.{perform_git_commit-Moves}
use git_change_operator.Commit.Outcome.{tripped}
use git_change_operator.Commit.Schedule.{
  start, running_message, should_execute, finish_execution, execute_commit, concluded,
  authenticated, answered, unless_tripped, ask_rest_apis, execute, with_schedule, by_parse,
  by_schedule, handle_scheduled,
}
use git_change_operator.Commit.Schedule.Conditions.{end_execution-Within}
use git_change_operator.Commit.Schedule.Laws.{wait_for_next-Within, suspended-Within}

module _ (P : Platform) (I J : P.World → Type 0) (F : IsRunFrame P I J) where
  abbrev pub Before : State P → Type 0
  Before = Within P I F.before

  abbrev pub After : State P → Type 0
  After = Within P J F.after

  -- What keeps `J` may follow where `I` holds.
  pub late : {A : Type 0} {m : Exec (State P) A} → Moves After After m → Moves Before After m
  late k = record { at = λ s h. k.at s (F.weaken s.world h) }

  pub prepare :
      {A B : Type 0} (m : Exec (State P) A) (f : A → Exec (State P) B)
      → Moves Before Before m
      → ((a : A) → Moves Before After (f a))
      → Moves Before After (m >>= f)
  prepare m f k l = Moves-bind m f k l (λ s h. F.weaken s.world h)

  pub perform-Moves :
      (o : GitCommit) (auth : BasicAuth)
      → Moves Before After (outside (perform_git_commit P o auth))
  perform-Moves o auth = record {
    at = λ s h.
        (perform_git_commit-Moves P I J F.work F.weaken F.pushed F.removed o auth).at s.world h;
  }

  finish_execution-After :
      (cron : P.Cron) (started : Time) (sha : Text)
      → Moves After After (finish_execution P cron started sha)
  unfolding finish_execution
  finish_execution-After cron started sha =
      search (keeps_rules, update_next_scheduled_time-Within, record_execution-Within, clock-Within)
        depth 30

  concluded-After :
      (cron : P.Cron) (started : Time) (r : Result Text)
      → Moves After After (concluded P cron started r)
  unfolding concluded
  concluded-After cron started (err e) = end_execution-Within P J F.after cron started _ _
  concluded-After cron started (ok sha) = finish_execution-After cron started sha

  authenticated-Moves :
      (cron : P.Cron) (started : Time) (o : GitCommit) (r : Result BasicAuth)
      → Moves Before After (authenticated P cron started o r)
  unfolding authenticated
  authenticated-Moves cron started o (err e) =
      late (end_execution-Within P J F.after cron started _ _)
  authenticated-Moves cron started o (ok auth) =
      Moves-bind_attempt (outside (perform_git_commit P o auth)) (concluded P cron started)
        (perform-Moves o auth) (λ e. concluded-After cron started (err e))
        (λ sha. concluded-After cron started (ok sha))

  pub auth-Before :
      (o : GitCommit)
      → Moves Before Before (
          outside
            (get_auth_from_secret P o.namespace o.spec.auth_secret_ref o.spec.auth_secret_key))
  auth-Before o = Within-outside _ (get_auth_from_secret-Moves P I F.work _ _ _)

  execute_commit-Moves :
      (cron : P.Cron) (started : Time) → Moves Before After (execute_commit P cron started)
  unfolding execute_commit
  execute_commit-Moves cron started = prepare _ _ (get-Within P I F.before (λ o. o)) (λ o.
      Moves-bind_attempt _ (authenticated P cron started o) (auth-Before o)
        (λ e. authenticated-Moves cron started o (err e))
        (λ auth. authenticated-Moves cron started o (ok auth)))

  answered-Moves :
      (cron : P.Cron) (started : Time) (r : Result Bool)
      → Moves Before After (answered P cron started r)
  unfolding answered
  answered-Moves cron started (err e) = late (end_execution-Within P J F.after cron started _ _)
  answered-Moves cron started (ok false) = late (end_execution-Within P J F.after cron started _ _)
  answered-Moves cron started (ok true) = execute_commit-Moves cron started

  unless_tripped-Moves :
      (cron : P.Cron) (started : Time) (breaker : Option RestApiStatus)
      → Moves Before After (unless_tripped P cron started breaker)
  unfolding unless_tripped
  unless_tripped-Moves cron started (some st) =
      late (end_execution-Within P J F.after cron started _ _)
  unless_tripped-Moves cron started none =
      Moves-bind_attempt (check_rest_api_conditions P) (answered P cron started)
        (check_rest_api_conditions-Within P I F.probe) (λ e. answered-Moves cron started (err e))
        (λ met. answered-Moves cron started (ok met))

  ask_rest_apis-Moves :
      (cron : P.Cron) (started : Time) → Moves Before After (ask_rest_apis P cron started)
  unfolding ask_rest_apis
  ask_rest_apis-Moves cron started =
      prepare _ _ (get-Within P I F.before (λ o. o))
        (λ o. unless_tripped-Moves cron started (tripped o.status.rest_api_statuses))

  execute-Moves : (cron : P.Cron) (started : Time) → Moves Before After (execute P cron started)
  unfolding execute
  execute-Moves cron started = prepare _ _ (modify-Within P I F.before (start started)) (λ u.
      prepare _ _ (update_schedule_status-Within P I F.before running running_message) (λ u.
        prepare _ _ (get-Within P I F.before (λ o. o)) (λ o.
          Moves-if (ltb 0 (length o.spec.rest_apis)) _ _ (ask_rest_apis-Moves cron started)
            (execute_commit-Moves cron started))))

  with_schedule-Moves : (cron : P.Cron) → Moves Before After (with_schedule P cron)
  unfolding with_schedule
  with_schedule-Moves cron = prepare _ _ (clock-Within P I F.before) (λ started.
      prepare _ _ (get-Within P I F.before (λ o. o)) (λ o.
        Moves-if (should_execute o.status.last_scheduled_time o.status.next_scheduled_time started)
          _ _ (execute-Moves cron started) (late (wait_for_next-Within P J F.after cron started))))

  parsed-Moves : (r : Result P.Cron) → Moves Before After (by_parse P r)
  unfolding by_parse
  parsed-Moves (ok cron) = with_schedule-Moves cron
  parsed-Moves (err e) = late (
      Keeps-bind _ _
        (update_schedule_status-Within P J F.after failed
          (text "Invalid cron schedule: " ++ error_text e))
        (λ u. Moves-raise e))

  pub handle_scheduled-Moves : Moves Before After (handle_scheduled P)
  unfolding handle_scheduled by_schedule
  handle_scheduled-Moves = prepare _ _ (get-Within P I F.before (λ o. o)) (λ o.
      Moves-if o.spec.suspend _ _ (late (suspended-Within P J F.after))
        (parsed-Moves (P.parse_cron o.spec.schedule)))
