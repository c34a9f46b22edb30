-- ===== src/Tests/PullFrames.antt =====
-- The theorems about PullRequests in memory: what a reconcile pushes and creates.
use mathlib.Core.Path.{subst}
use git_change_operator.Base.{
  ℕ, ◌≡◌, ◌≢◌, ◌≤◌, refl, sym, ◌∙◌, text, true, false, Option, none, some, arith, Bool-cases, inl,
  inr, ◌==◌,
}
use git_change_operator.Cel.{
  new_evaluator, process_response, evaluate_condition, evaluate_data_expression,
  evaluate_output_format,
}
use git_change_operator.Base.Words.{increment}
use git_change_operator.Metrics.{record_api_request, record_condition_check}
use git_change_operator.Effects.{ok, Held}
use git_change_operator.Api.Pull.{PullRequest}
use git_change_operator.Platform.Frames.{IsPullStatusFrame, IsCreateFrame}
use git_change_operator.Commit.Schedule.{should_execute}
use git_change_operator.RestCall.{check_all, ask_api, ensure_statuses, http_condition_met}
use git_change_operator.RestCall.AllMet.{AllMet}
use git_change_operator.Pull.RestCheck.Met.{pull_check_rest_api_conditions-AllMet}
use git_change_operator.Pull.RestCheck.{check_rest_api_conditions, check_single}
use git_change_operator.Pull.Schedule.{ask_rest_apis, handle_scheduled}
use git_change_operator.Pull.Schedule.Conditions.{pull_ask_rest_apis-Within}
use git_change_operator.Pull.Schedule.Laws.{pull_handle_scheduled-Within}
use git_change_operator.Pull.Reconcile.{process, reconcile}
use git_change_operator.Pull.Reconcile.Conditions.{pull_process-Within}
use git_change_operator.Pull.Reconcile.Creations.{reconcile-creates}
use git_change_operator.Tests.Memory.{Computer, memory, update_stored_pull}
use git_change_operator.Tests.Frames.{counters, Counted, probe_frame, work_frame}
use git_change_operator.Tests.Pulls.{pull, hourly_pull, asking_pull, pull_at, holding_pull}

-- An update leaves the counters alone.
counters-update :
    (o : PullRequest) (c : Option PullRequest) (w : Computer)
    → counters (update_stored_pull o c w).1 ≡ counters w
counters-update o none w = refl
counters-update o (some old) w = elim (Bool-cases (o.resource_version == old.resource_version)) [
  | inl e ↦ rw e refl
  | inr e ↦ rw e refl
]

pub status_frame : (Q : ℕ → ℕ → ℕ → Type 0) → IsPullStatusFrame memory (Counted Q)
status_frame Q = record {
  now = λ w h. h;
  sleep = λ d w h. h;
  get_pull = λ namespace name w h. h;
  update = λ o w h. subst (λ (p, c, d). Q p c d) (sym (counters-update o w.pull w)) h;
}

abbrev None : ℕ → ℕ → ℕ → Type 0
None pushed created deleted = (pushed ≡ 0) × (created ≡ 0)

abbrev Pushed : ℕ → ℕ → ℕ → Type 0
Pushed pushed created deleted = (pushed ≡ 1) × (created ≡ 0)

abbrev Paired : ℕ → ℕ → ℕ → Type 0
Paired pushed created deleted = (pushed ≤ 1) × (created ≤ pushed)

create_frame : IsCreateFrame memory (Counted None) (Counted Pushed) (Counted Paired)
create_frame = record {
  runs = record {
    before = status_frame None;
    after = status_frame Paired;
    probe = probe_frame None;
    work = work_frame None;
    weaken = λ w h. omega arith;
    pushed = λ repo auth. record { at = λ w h. omega arith };
    unasked = λ w h. omega arith;
    created = λ token owner name request. record { at = λ w h. omega arith };
    removed = λ path w h. h;
  };
  delete_pull = λ o. record { at = λ w h. h };
}

reconcile-creates_example :
    let w = (reconcile memory (text "default") (text "pull") (pull_at 1000 pull)).1 in
    (w.pushed ≤ 1) × (w.created ≤ w.pushed)
reconcile-creates_example =
    reconcile-creates memory (Counted None) (Counted Pushed) (Counted Paired) create_frame
      (text "default") (text "pull") (pull_at 1000 pull) (refl, refl)

-- A server that answers 500.
abbrev refused : Held Computer PullRequest
refused = record {
  world = record (pull_at 1000 asking_pull) { answer = (500, text "{}") };
  object = asking_pull;
}

refused-check : (check_rest_api_conditions memory refused).0 ≡ ok false
unfolding check_rest_api_conditions check_all ensure_statuses check_single ask_api
    http_condition_met record_api_request record_condition_check
refused-check = refl

unmet : (check_rest_api_conditions memory refused).0 ≢ ok true
unmet h = different (sym refused-check ∙ h)
  where
    different : ok false ≢ ok true
    different e = cc

abbrev Quiet : Computer → Type 0
Quiet w = (w.pushed ≡ 0) × (w.created ≡ 0)

pull_process-Within_example : Quiet (process memory refused).1.world
pull_process-Within_example =
    pull_process-Within memory (Counted None) (status_frame None) (probe_frame None) refused
      (refl, refl) (omega arith) unmet

pull_ask_rest_apis-Within_example : Quiet (ask_rest_apis memory 3600000000000 1000 refused).1.world
pull_ask_rest_apis-Within_example =
    pull_ask_rest_apis-Within memory (Counted None) (status_frame None) (probe_frame None)
      3600000000000 1000 refused (refl, refl) unmet

not_due : should_execute (some 0) (some 7200000000000) 1000 ≡ false
unfolding should_execute
not_due = refl

pull_handle_scheduled-Within_example :
    Quiet (handle_scheduled memory (holding_pull hourly_pull)).1.world
pull_handle_scheduled-Within_example =
    pull_handle_scheduled-Within memory (Counted None) (status_frame None)
      (holding_pull hourly_pull) (refl, refl) (λ cron s p. not_due)

-- A PullRequest with an API, and a server that answers as `answer` of the computer.
abbrev asking : Held Computer PullRequest
asking = record { world = pull_at 1000 asking_pull; object = asking_pull }

asking-check : (check_rest_api_conditions memory asking).0 ≡ ok true
unfolding check_rest_api_conditions check_all ensure_statuses check_single ask_api
    http_condition_met record_api_request record_condition_check new_evaluator process_response
    evaluate_condition increment text evaluate_data_expression evaluate_output_format
asking-check = refl

pull_check_rest_api_conditions-AllMet_example :
    AllMet asking.object.spec.rest_apis
      (check_rest_api_conditions memory asking).1.object.status.rest_api_statuses
pull_check_rest_api_conditions-AllMet_example =
    pull_check_rest_api_conditions-AllMet memory asking asking-check
