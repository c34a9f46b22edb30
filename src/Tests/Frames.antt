-- ===== src/Tests/Frames.antt =====
-- The theorems about whole reconciles in memory: what they push.
use mathlib.Core.Path.{subst}
use git_change_operator.Base.{
  ℕ, ◌≡◌, ◌≢◌, ◌≤◌, refl, sym, ◌∙◌, text, true, false, Option, none, some, arith, Bool-cases, inl,
  inr, ◌==◌,
}
use git_change_operator.Base.Words.{at_least}
use git_change_operator.Cel.{
  new_evaluator, process_response, evaluate_condition, evaluate_data_expression,
  evaluate_output_format,
}
use git_change_operator.Base.Words.{increment}
use git_change_operator.Metrics.{record_api_request, record_condition_check}
use git_change_operator.Effects.{ok, Held}
use git_change_operator.Api.Commit.{GitCommit, pending}
use git_change_operator.Platform.Frames.{IsStatusFrame, IsProbeFrame, IsWorkFrame, IsPushFrame}
use git_change_operator.RestCall.{check_all, ask_api, ensure_statuses, http_condition_met}
use git_change_operator.RestCall.AllMet.{AllMet}
use git_change_operator.Commit.RestCheck.Met.{check_rest_api_conditions-AllMet}
use git_change_operator.Commit.RestCheck.{check_rest_api_conditions, check_single}
use git_change_operator.Commit.Schedule.{ask_rest_apis}
use git_change_operator.Commit.Schedule.Conditions.{ask_rest_apis-Within}
use git_change_operator.Commit.Reconcile.{process, reconcile}
use git_change_operator.Commit.Reconcile.Conditions.{process-Within}
use git_change_operator.Commit.Reconcile.Pushes.{reconcile-pushes}
use git_change_operator.Tests.Memory.{Computer, memory, update_stored}
use git_change_operator.Tests.Commits.{commit, status, at_time}

abbrev pub counters : Computer → ℕ × ℕ × ℕ
counters w = (w.pushed, w.created, w.deleted)

-- An update leaves the counters alone.
counters-update :
    (o : GitCommit) (c : Option GitCommit) (w : Computer)
    → counters (update_stored o c w).1 ≡ counters w
counters-update o none w = refl
counters-update o (some old) w = elim (Bool-cases (o.resource_version == old.resource_version)) [
  | inl e ↦ rw e refl
  | inr e ↦ rw e refl
]

-- A property of the counters of pushes, of pull requests and of deletions.
abbrev pub Counted : (ℕ → ℕ → ℕ → Type 0) → Computer → Type 0
Counted Q w = Q w.pushed w.created w.deleted

module _ (Q : ℕ → ℕ → ℕ → Type 0) where
  pub status_frame : IsStatusFrame memory (Counted Q)
  status_frame = record {
    now = λ w h. h;
    sleep = λ d w h. h;
    get_commit = λ namespace name w h. h;
    update = λ o w h. subst (λ (p, c, d). Q p c d) (sym (counters-update o w.commit w)) h;
  }

  pub probe_frame : IsProbeFrame memory (Counted Q)
  probe_frame = record {
    now = λ w h. h;
    get_secret = λ namespace name w h. h;
    metrics = record {
      inc = λ v values w kind fits h. h;
      observe = λ v values n b w kind fits h. h;
    };
    http_do = λ request w h. h;
    read_body = λ body w h. h;
    eval = λ program variables w h. h;
  }

  pub work_frame : IsWorkFrame memory (Counted Q)
  work_frame = record {
    now = λ w h. h;
    get_secret = λ namespace name. record { at = λ w h. h };
    get_object = λ kind namespace name. record { at = λ w h. h };
    temp_dir = λ prefix. record { at = λ w h. h };
    make_dirs = λ path. record { at = λ w h. h };
    read_file = λ path. record { at = λ w h. h };
    write_file = λ path content. record { at = λ w h. h };
    clone_repo = λ root url auth. record { at = λ w h. h };
    worktree = λ repo. record { at = λ w h. h };
    checkout = λ tree branch create. record { at = λ w h. h };
    head = λ repo. record { at = λ w h. h };
    set_reference = λ repo branch hash. record { at = λ w h. h };
    stage = λ tree path. record { at = λ w h. h };
    commit_tree = λ tree message by. record { at = λ w h. h };
    age_encrypt = λ recipients. record { at = λ w h. h };
    age_write = λ out content. record { at = λ w h. h };
    age_close = λ out. record { at = λ w h. h };
  }

abbrev None : ℕ → ℕ → ℕ → Type 0
None n created deleted = n ≡ 0

abbrev AtMostOne : ℕ → ℕ → ℕ → Type 0
AtMostOne n created deleted = n ≤ 1

push_frame : IsPushFrame memory (Counted None) (Counted AtMostOne)
push_frame = record {
  runs = record {
    before = status_frame None;
    after = status_frame AtMostOne;
    probe = probe_frame None;
    work = work_frame None;
    weaken = λ w h. omega arith;
    pushed = λ repo auth. record { at = λ w h. omega arith };
    removed = λ path w h. h;
  };
  delete_commit = λ o. record { at = λ w h. h };
}

-- A commit that has not run yet.
abbrev untouched : GitCommit
untouched = record commit { status = record status { phase = pending } }

reconcile-pushes_example :
    (reconcile memory (text "default") (text "commit") (at_time 1000 untouched)).1.pushed ≤ 1
reconcile-pushes_example =
    reconcile-pushes memory (Counted None) (Counted AtMostOne) push_frame (text "default")
      (text "commit") (at_time 1000 untouched) refl

-- A server that answers 500.
abbrev refused : Held Computer GitCommit
refused = record {
  world = record (at_time 1000 commit) { answer = (500, text "{}") };
  object = commit;
}

refused-check : (check_rest_api_conditions memory refused).0 ≡ ok false
unfolding check_rest_api_conditions check_all ensure_statuses check_single ask_api
    http_condition_met at_least record_api_request record_condition_check
refused-check = refl

unmet : (check_rest_api_conditions memory refused).0 ≢ ok true
unmet h = different (sym refused-check ∙ h)
  where
    different : ok false ≢ ok true
    different e = cc

process-Within_example : (process memory refused).1.world.pushed ≡ 0
process-Within_example =
    process-Within memory (Counted None) (status_frame None) (probe_frame None) refused refl
      (omega arith) unmet

ask_rest_apis-Within_example : (ask_rest_apis memory 3600000000000 1000 refused).1.world.pushed ≡ 0
ask_rest_apis-Within_example =
    ask_rest_apis-Within memory (Counted None) (status_frame None) (probe_frame None) 3600000000000
      1000 refused refl unmet

-- A GitCommit that has not called its API yet, and a server that answers as `answer` of the computer.
abbrev asking : Held Computer GitCommit
asking = record { world = at_time 1000 untouched; object = untouched }

asking-check : (check_rest_api_conditions memory asking).0 ≡ ok true
unfolding check_rest_api_conditions check_all ensure_statuses check_single ask_api
    http_condition_met at_least record_api_request record_condition_check new_evaluator
    process_response evaluate_condition increment text evaluate_data_expression
    evaluate_output_format
asking-check = refl

check_rest_api_conditions-AllMet_example :
    AllMet asking.object.spec.rest_apis
      (check_rest_api_conditions memory asking).1.object.status.rest_api_statuses
check_rest_api_conditions-AllMet_example =
    check_rest_api_conditions-AllMet memory asking asking-check
