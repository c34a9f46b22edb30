-- ===== src/Platform/Frames.antt =====
-- Properties of the world that some calls of the platform keep.
use git_change_operator.Base.{ℕ, Text, Bool, List}
use git_change_operator.Api.Commit.{GitCommit}
use git_change_operator.Api.Pull.{PullRequest}
use git_change_operator.Effects.Moves.{Moves}
use git_change_operator.Metrics.Laws.{IsMetricFrame}
use git_change_operator.Platform.{
  Platform, HttpRequest, BasicAuth, Signature, GroupVersionKind, NewPullRequest,
}

-- The calls that the writers of the status make keep `I`.
pub record IsStatusFrame (P : Platform) (I : P.World → Type 0) : Type 0 where
  pub now : (w : P.World) → I w → I (P.now w).1
  pub sleep : (d : ℕ) (w : P.World) → I w → I (P.sleep d w)
  pub get_commit : (namespace name : Text) (w : P.World) → I w → I (P.get_commit namespace name w).1
  pub update : (o : GitCommit) (w : P.World) → I w → I (P.update_commit_status o w).1

-- The calls that a check of the REST APIs makes keep `I`: the clock, reads of secrets, HTTP requests,
-- the recordings that Prometheus accepts and the evaluation of CEL programs.
pub record IsProbeFrame (P : Platform) (I : P.World → Type 0) : Type 0 where
  pub now : (w : P.World) → I w → I (P.now w).1
  pub get_secret : (namespace name : Text) (w : P.World) → I w → I (P.get_secret namespace name w).1
  pub metrics : IsMetricFrame P I
  pub http_do : (request : HttpRequest) (w : P.World) → I w → I (P.http_do request w).1
  pub read_body : (body : P.Body) (w : P.World) → I w → I (P.read_body body w).1
  pub eval :
      (program : P.Program) (variables : List (Text × P.Json)) (w : P.World)
      → I w
      → I (P.eval program variables w).1

-- The calls that prepare a commit keep `I`: reads of secrets and objects, the file system, age, and Git
-- up to the commit in the clone.
pub record IsWorkFrame (P : Platform) (I : P.World → Type 0) : Type 0 where
  pub now : (w : P.World) → I w → I (P.now w).1
  pub get_secret : (namespace name : Text) → Moves I I (P.get_secret namespace name)
  pub get_object :
      (kind : GroupVersionKind) (namespace name : Text)
      → Moves I I (P.get_object kind namespace name)
  pub temp_dir : (prefix : Text) → Moves I I (P.temp_dir prefix)
  pub make_dirs : (path : Text) → Moves I I (P.make_dirs path)
  pub read_file : (path : Text) → Moves I I (P.read_file path)
  pub write_file : (path content : Text) → Moves I I (P.write_file path content)
  pub clone_repo : (root url : Text) (auth : BasicAuth) → Moves I I (P.clone_repo root url auth)
  pub worktree : (repo : P.Repo) → Moves I I (P.worktree repo)
  pub checkout :
      (w : P.Worktree) (branch : Text) (create : Bool) → Moves I I (P.checkout w branch create)
  pub head : (repo : P.Repo) → Moves I I (P.head repo)
  pub set_reference :
      (repo : P.Repo) (branch hash : Text) → Moves I I (P.set_reference repo branch hash)
  pub stage : (w : P.Worktree) (path : Text) → Moves I I (P.stage w path)
  pub commit_tree :
      (w : P.Worktree) (message : Text) (by : Signature) → Moves I I (P.commit_tree w message by)
  pub age_encrypt : (recipients : List P.AgeRecipient) → Moves I I (P.age_encrypt recipients)
  pub age_write : (out : P.AgeWriter) (content : Text) → Moves I I (P.age_write out content)
  pub age_close : (out : P.AgeWriter) → Moves I I (P.age_close out)

-- `J` takes the place of `I` by a push, and no other call of a reconcile that deletes nothing ends either:
-- for instance `I`, that nothing has been pushed, and `J`, that at most one push was made.
pub record IsRunFrame (P : Platform) (I J : P.World → Type 0) : Type 0 where
  pub before : IsStatusFrame P I
  pub after : IsStatusFrame P J
  pub probe : IsProbeFrame P I
  pub work : IsWorkFrame P I
  pub weaken : (w : P.World) → I w → J w
  pub pushed : (repo : P.Repo) (auth : BasicAuth) → Moves I J (P.push repo auth)
  pub removed : (path : Text) (w : P.World) → J w → J (P.remove_all path w)

-- The same with the deletion of the GitCommit.
pub record IsPushFrame (P : Platform) (I J : P.World → Type 0) : Type 0 where
  pub runs : IsRunFrame P I J
  pub delete_commit : (o : GitCommit) → Moves I I (P.delete_commit o)

-- The calls that the writers of a PullRequest's status make keep `I`.
pub record IsPullStatusFrame (P : Platform) (I : P.World → Type 0) : Type 0 where
  pub now : (w : P.World) → I w → I (P.now w).1
  pub sleep : (d : ℕ) (w : P.World) → I w → I (P.sleep d w)
  pub get_pull : (namespace name : Text) (w : P.World) → I w → I (P.get_pull namespace name w).1
  pub update : (o : PullRequest) (w : P.World) → I w → I (P.update_pull_status o w).1

-- `I` becomes `K` by a push, `K` becomes `J` by a request for a pull request, and no other call of a
-- reconcile that deletes nothing ends any of them.
pub record IsPullRunFrame (P : Platform) (I K J : P.World → Type 0) : Type 0 where
  pub before : IsPullStatusFrame P I
  pub after : IsPullStatusFrame P J
  pub probe : IsProbeFrame P I
  pub work : IsWorkFrame P I
  pub weaken : (w : P.World) → I w → J w
  pub pushed : (repo : P.Repo) (auth : BasicAuth) → Moves I K (P.push repo auth)
  pub unasked : (w : P.World) → K w → J w
  pub created :
      (token owner name : Text) (request : NewPullRequest)
      → Moves K J (P.create_pull token owner name request)
  pub removed : (path : Text) (w : P.World) → J w → J (P.remove_all path w)

-- The same with the deletion of the PullRequest.
pub record IsCreateFrame (P : Platform) (I K J : P.World → Type 0) : Type 0 where
  pub runs : IsPullRunFrame P I K J
  pub delete_pull : (o : PullRequest) → Moves I I (P.delete_pull o)
