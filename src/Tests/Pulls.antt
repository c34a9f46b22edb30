-- ===== src/Tests/Pulls.antt =====
-- PullRequests for the tests.
use git_change_operator.Base.{ℕ, text, false, none, some, [], ◌∷◌}
use git_change_operator.Effects.{Held}
use git_change_operator.Api.Pull.{PullRequest, PullRequestSpec, PullRequestStatus, pending}
use git_change_operator.Tests.Memory.{Computer}
use git_change_operator.Tests.Commits.{at_time, commit, config_map, encryption, readme, rest_api}

abbrev pub pull_spec : PullRequestSpec
pull_spec = record {
  repository = text "https://github.com/owner/repo.git";
  base_branch = text "main";
  head_branch = text "update";
  title = text "Update";
  body = [];
  files = record readme { use_rest_api_data = false } ∷ [];
  resource_refs = config_map ∷ [];
  auth_secret_ref = text "git";
  auth_secret_key = [];
  encryption = some encryption;
  rest_apis = [];
  ttl_minutes = some 1;
  schedule = [];
  suspend = false;
  max_execution_history = some 2;
}

abbrev pub pull_status : PullRequestStatus
pull_status = record {
  pull_request_number = 0;
  pull_request_url = [];
  phase = pending;
  message = [];
  last_sync = none;
  rest_api_statuses = [];
  last_scheduled_time = some 0;
  next_scheduled_time = some 7200000000000;
  execution_history = [];
}

abbrev pub pull : PullRequest
pull = record {
  name = text "pull";
  namespace = text "default";
  resource_version = 1;
  creation_timestamp = 0;
  spec = pull_spec;
  status = pull_status;
}

abbrev pub hourly_pull : PullRequest
hourly_pull = record pull { spec = record pull_spec { schedule = text "0 * * * *" } }

-- One whose REST API is to be asked first.
abbrev pub asking_pull : PullRequest
asking_pull = record pull { spec = record pull_spec { rest_apis = rest_api ∷ [] } }

-- A computer that holds a pull request, at a time.
abbrev pub pull_at : ℕ → PullRequest → Computer
pull_at t o = record (at_time t commit) { pull = some o }

abbrev pub holding_pull : PullRequest → Held Computer PullRequest
holding_pull o = record { world = pull_at 1000 o; object = o }
