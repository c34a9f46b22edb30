-- ===== src/Tests/Commits.antt =====
-- GitCommits and REST APIs for the tests.
use git_change_operator.Base.{ℕ, text, true, false, none, some, [], ◌∷◌}
use git_change_operator.Effects.{Held}
use git_change_operator.Api.Rest.{RestApi, RestApiStatus, new_status}
use git_change_operator.Api.Files.{
  File, overwrite, append, fields, ResourceRef, Encryption, Recipient, age,
}
use git_change_operator.Api.Commit.{GitCommit, GitCommitSpec, GitCommitStatus, committed}
use git_change_operator.Tests.Memory.{Computer}

abbrev pub rest_api : RestApi
rest_api = record {
  name = text "api";
  url = text "https://example.org";
  method = [];
  headers = [];
  body = [];
  auth_secret_ref = [];
  auth_secret_key = [];
  expected_status_codes = [];
  max_status_code = 0;
  timeout_seconds = 0;
  response_parsing =
      some (record { condition = text "true"; data_expression = []; output_format = [] });
}

abbrev pub readme : File
readme = record {
  path = text "README.md";
  content = text "hello";
  use_rest_api_data = true;
  rest_api_name = text "api";
  rest_api_delimiter = [];
  write_mode = overwrite;
}

abbrev pub config_map : ResourceRef
config_map = record {
  api_version = text "v1";
  kind = text "ConfigMap";
  name = text "settings";
  namespace = [];
  strategy = record { kind = fields; path = text "config/"; write_mode = append; field_ref = none };
}

abbrev pub recipient : Recipient
recipient = record { kind = age; value = text "age1"; secret_ref = none }

abbrev pub encryption : Encryption
encryption = record { enabled = true; recipients = recipient ∷ []; file_extension = [] }

abbrev pub spec : GitCommitSpec
spec = record {
  repository = text "https://example.org/repo.git";
  branch = text "main";
  files = readme ∷ [];
  resource_refs = config_map ∷ [];
  commit_message = text "update";
  auth_secret_ref = text "git";
  auth_secret_key = [];
  encryption = none;
  rest_apis = rest_api ∷ [];
  ttl_minutes = some 1;
  schedule = [];
  suspend = false;
  max_execution_history = some 2;
}

abbrev pub rest_status : RestApiStatus
rest_status = record new_status {
  name = text "api";
  call_count = 2;
  success_count = 1;
  condition_met = true;
  formatted_output = text "42";
}

abbrev pub status : GitCommitStatus
status = record {
  commit_sha = [];
  phase = committed;
  message = [];
  last_sync = none;
  rest_api_statuses = rest_status ∷ [];
  last_scheduled_time = some 0;
  next_scheduled_time = some 7200000000000;
  execution_history = [];
}

abbrev pub commit : GitCommit
commit = record {
  name = text "commit";
  namespace = text "default";
  resource_version = 1;
  creation_timestamp = 0;
  spec = spec;
  status = status;
}

abbrev pub hourly : GitCommit
hourly = record commit { spec = record spec { schedule = text "0 * * * *" } }

-- A computer that holds a commit, at a time.
abbrev pub at_time : ℕ → GitCommit → Computer
at_time t o = record {
  time = t;
  commit = some o;
  files = [];
  answer = (200, text "{}");
  deleted = 0;
  pushed = 0;
  pull = none;
  created = 0;
  sealed = [];
  refusals = 0;
  misfits = 0;
}

abbrev pub holding : GitCommit → Held Computer GitCommit
holding o = record { world = at_time 1000 o; object = o }
