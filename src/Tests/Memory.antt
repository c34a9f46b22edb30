-- ===== src/Tests/Memory.antt =====
-- One GitCommit, a clock and a few counters: an outside world that runs.
use git_change_operator.Base.{
  ℕ, suc, ◌+◌, ◌*◌, ◌≡◌, ◌≢◌, refl, ap, sym, ◌∙◌, Text, text, Bool, true, false, Option, none, some,
  List, [], ◌∷◌,
}
use git_change_operator.Base.{if◌then◌else◌, ◌==◌, is_nil, lookup}
use git_change_operator.Effects.{Error, not_found, conflict, other, Result, ok, err}
use git_change_operator.Api.Commit.{GitCommit, GitCommitStatus}
use git_change_operator.Api.Pull.{PullRequest, PullRequestStatus}
use git_change_operator.Api.CelValue.{bool}
use git_change_operator.Platform.{Platform}
use git_change_operator.Platform.Laws.{persisted, persisted_pull, IsApiServer, IsPullServer}

-- `answer` is what each HTTP request gets; `deleted`, `pushed` and `created` count, and `sealed` is what
-- the age writer holds. `refusals` counts the updates that a server of another platform still refuses,
-- and `misfits` the recordings that another platform has refused.
pub record Computer : Type 0 where
  pub time : ℕ
  pub commit : Option GitCommit
  pub files : List (Text × Text)
  pub answer : ℕ × Text
  pub deleted : ℕ
  pub pushed : ℕ
  pub pull : Option PullRequest
  pub created : ℕ
  pub sealed : Text
  pub refusals : ℕ
  pub misfits : ℕ

-- An update is refused unless it comes from the version that is stored.
abbrev pub stored : GitCommit → GitCommit → Computer → Result GitCommit × Computer
stored o old w =
    if o.resource_version == old.resource_version
    then (let o' = record old {
      resource_version = suc old.resource_version;
      status = persisted o.status;
    } in
        (ok o', record w { commit = some o' }))
    else (err (conflict (text "the object has been modified")), w)

abbrev pub update_stored : GitCommit → Option GitCommit → Computer → Result GitCommit × Computer
update_stored o none w = (err (not_found (text "no such GitCommit")), w)
update_stored o (some old) w = stored o old w

abbrev pub stored_pull : PullRequest → PullRequest → Computer → Result PullRequest × Computer
stored_pull o old w =
    if o.resource_version == old.resource_version
    then (let o' = record old {
      resource_version = suc old.resource_version;
      status = persisted_pull o.status;
    } in
        (ok o', record w { pull = some o' }))
    else (err (conflict (text "the object has been modified")), w)

abbrev pub update_stored_pull :
    PullRequest → Option PullRequest → Computer → Result PullRequest × Computer
update_stored_pull o none w = (err (not_found (text "no such PullRequest")), w)
update_stored_pull o (some old) w = stored_pull o old w

err_ne_ok : {A : Type 0} {e : Error} {a : A} → err e ≢ ok a
err_ne_ok h = cc

abbrev pub found : {A : Type 0} → Option A → Result A
found none = err (not_found (text "not found"))
found (some a) = ok a

abbrev yes : {A : Type 0} → A → Computer → Result A × Computer
yes a w = (ok a, w)

abbrev pub memory : Platform
memory = record {
  World = Computer;
  now = λ w. (w.time, record w { time = suc w.time });
  sleep = λ d w. record w { time = d + w.time };
  rfc3339 = λ t. text "2000-01-01T00:00:00Z";
  get_commit = λ namespace name w. (found w.commit, w);
  update_commit_status = λ o w. update_stored o w.commit w;
  delete_commit = λ o w. (ok tt, record w { commit = none; deleted = suc w.deleted });
  get_pull = λ namespace name w. (found w.pull, w);
  update_pull_status = λ o w. update_stored_pull o w.pull w;
  delete_pull = λ o w. (ok tt, record w { pull = none; deleted = suc w.deleted });
  get_secret = λ namespace name. yes ((text "token", text "secret") ∷ []);
  Object = List (Text × Text);
  Value = Text;
  get_object = λ kind namespace name. yes ((text "a", text "1") ∷ (text "b", text "2") ∷ []);
  nested_map = λ o key. ok (some o);
  marshal_yaml = λ o. ok (text "kind: ConfigMap");
  show_value = λ v. v;
  parse_group_version = λ s. ok (text "", s);
  object_field = λ o key. lookup key o;
  as_map = λ v. none;
  as_string = λ v. some v;
  marshal_value = λ v. ok v;
  inc = λ name labels w. w;
  Float = ℕ × ℕ;
  float = λ n. (n, 1);
  add_float = λ a b. (a.0 * b.1 + b.0 * a.1, a.1 * b.1);
  divide_float = λ a b. (a.0 * b.1, a.1 * b.0);
  observe = λ name labels n w. w;
  Body = Text;
  check_request = λ method url. ok tt;
  http_do = λ request w. (ok w.answer, w);
  read_body = λ body. yes body;
  temp_dir = λ prefix. yes (text "/tmp/git-commit-1");
  remove_all = λ path w. w;
  make_dirs = λ path. yes tt;
  read_file = λ path w. (found (lookup path w.files), w);
  write_file = λ path content w. (ok tt, record w { files = (path, content) ∷ w.files });
  Repo = Unit;
  Worktree = Unit;
  clone_repo = λ root url auth. yes tt;
  worktree = λ repo. yes tt;
  checkout = λ w branch create. yes tt;
  head = λ repo. yes (text "0");
  set_reference = λ repo branch hash. yes tt;
  stage = λ w path. yes tt;
  commit_tree = λ w message signature. yes (text "abc");
  push = λ repo auth w. (ok tt, record w { pushed = suc w.pushed });
  create_pull = λ token owner repo request w.
      (ok (7, text "https://github.com/o/r/pull/7"), record w { created = suc w.created });
  AgeRecipient = Text;
  AgeWriter = Unit;
  parse_x25519 = λ s. if is_nil s then err (other (text "empty")) else ok s;
  parse_ssh = λ s. ok s;
  new_scrypt = λ s. ok s;
  age_encrypt = λ rs. yes tt;
  age_write = λ out s w. (ok tt, record w { sealed = s });
  age_close = λ out w. (ok w.sealed, w);
  AgeIdentity = Text;
  AgeReader = Text;
  parse_x25519_identity = λ s. ok s;
  parse_ssh_identity = λ s. ok s;
  new_scrypt_identity = λ s. ok s;
  age_decrypt = λ bytes identities. ok bytes;
  read_all = λ reader. ok reader;
  Json = Text;
  CelEnv = Unit;
  Ast = Text;
  Program = Text;
  Other = Unit;
  unmarshal = λ s. ok s;
  json_text = λ s. s;
  json_null = [];
  json_int = λ n. [];
  marshal = λ v. ok (text "{}");
  show_go = λ v. [];
  type_name = λ v. text "string";
  new_cel_env = ok tt;
  compile = λ env s. ok s;
  program = λ env s. ok s;
  eval = λ p vs. yes (bool true);
  Cron = ℕ;
  parse_cron = λ s. ok 3600000000000;
  next = λ period t. t + period;
}

-- The status in a result, or `d`.
abbrev status_in : GitCommitStatus → Result GitCommit × Computer → GitCommitStatus
status_in d (ok o, w) = o.status
status_in d (err e, w) = d

abbrev pull_status_in : PullRequestStatus → Result PullRequest × Computer → PullRequestStatus
pull_status_in d (ok o, w) = o.status
pull_status_in d (err e, w) = d

stored-status :
    (o o' old new : GitCommit) (w w' v : Computer) (e : Error) (b : Bool)
    → new.status ≡ persisted o.status
    → ◌≡◌ {A = Result GitCommit × Computer} (if b then (ok new, v) else (err e, w)) (ok o', w')
    → o'.status ≡ persisted o.status
stored-status o o' old new w w' v e true h k = ap (status_in new.status) (sym k) ∙ h
stored-status o o' old new w w' v e false h k = absurd (err_ne_ok (ap (λ p. p.0) k))

updated-status :
    (o o' : GitCommit) (c : Option GitCommit) (w w' : Computer)
    → update_stored o c w ≡ (ok o', w')
    → o'.status ≡ persisted o.status
updated-status o o' none w w' e = absurd (err_ne_ok (ap (λ p. p.0) e))
updated-status o o' (some old) w w' e =
    stored-status o o' old _ w w' _ _ (o.resource_version == old.resource_version) refl e

pub memory-IsApiServer : IsApiServer memory
memory-IsApiServer = record { updated_status = λ o o' w w' e. updated-status o o' w.commit w w' e }

stored_pull-status :
    (o o' old new : PullRequest) (w w' v : Computer) (e : Error) (b : Bool)
    → new.status ≡ persisted_pull o.status
    → ◌≡◌ {A = Result PullRequest × Computer} (if b then (ok new, v) else (err e, w)) (ok o', w')
    → o'.status ≡ persisted_pull o.status
stored_pull-status o o' old new w w' v e true h k = ap (pull_status_in new.status) (sym k) ∙ h
stored_pull-status o o' old new w w' v e false h k = absurd (err_ne_ok (ap (λ p. p.0) k))

updated_pull-status :
    (o o' : PullRequest) (c : Option PullRequest) (w w' : Computer)
    → update_stored_pull o c w ≡ (ok o', w')
    → o'.status ≡ persisted_pull o.status
updated_pull-status o o' none w w' e = absurd (err_ne_ok (ap (λ p. p.0) e))
updated_pull-status o o' (some old) w w' e =
    stored_pull-status o o' old _ w w' _ _ (o.resource_version == old.resource_version) refl e

pub memory-IsPullServer : IsPullServer memory
memory-IsPullServer = record {
  updated_status = λ o o' w w' e. updated_pull-status o o' w.pull w w' e;
}
