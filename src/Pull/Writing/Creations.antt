-- ===== src/Pull/Writing/Creations.antt =====
-- What `createPullRequest` touches of the world.
use git_change_operator.Base.{ℕ, Text, text, List, [], ◌∷◌, ◌++◌}
use git_change_operator.Effects.{Result, ok, err, Exec, ◌>>=◌}
use git_change_operator.Effects.Moves.{
  Moves, Moves-pure, Moves-wrapped, Moves-lift, Moves-bind, Moves-bind_weaken, Moves-bind_attempt,
  Keeps-bind, keeps_rules,
}
use git_change_operator.Api.Files.{File, ResourceRef, WriteMode}
use git_change_operator.Api.Pull.{PullRequest}
use git_change_operator.Platform.{Platform, BasicAuth}
use git_change_operator.Platform.Frames.{IsWorkFrame, IsPullRunFrame}
use git_change_operator.Commit.Secrets.Frames.{encrypt_file_content-Moves}
use git_change_operator.Commit.Writing.{source_content}
use git_change_operator.Commit.Writing.Frames.{
  checkout_branch-Moves, final_content-Moves, author-Moves, finally_remove-Moves,
}
use git_change_operator.Pull.Resources.Frames.{process_resource_ref-Moves}
use git_change_operator.Pull.Repository.{parse_repository}
use git_change_operator.Pull.Writing.{
  seal, write_one, write_files, write_entries, write_resources, pushed, push_branch, answer,
  request_pull, new_pull_request, publish, create_in, create_in_temp, create_pull_request,
}

module _ (P : Platform) (I : P.World → Type 0) (F : IsWorkFrame P I) where
  seal-Moves : (o : PullRequest) (name content : Text) → Moves I I (seal P o name content)
  unfolding seal
  seal-Moves o name content = search (keeps_rules, encrypt_file_content-Moves P I F) depth 20

  write_one-Moves :
      (root : Text) (w : P.Worktree) (o : PullRequest) (mode : WriteMode) (name content : Text)
      → Moves I I (write_one P root w o mode name content)
  unfolding write_one
  write_one-Moves root w o mode name content =
      search
        (keeps_rules, final_content-Moves P I F, seal-Moves, F.make_dirs, F.write_file, F.stage)
        depth 30

  write_files-Moves :
      (root : Text) (w : P.Worktree) (o : PullRequest) (files : List File)
      → Moves I I (write_files P root w o files)
  unfolding write_files
  write_files-Moves root w o [] = Moves-pure tt
  write_files-Moves root w o (f ∷ fs) =
      Keeps-bind _ _ (Moves-lift (source_content P f o.status.rest_api_statuses)) (λ content.
        Keeps-bind _ _ (write_one-Moves root w o f.write_mode f.path content)
          (λ u. write_files-Moves root w o fs))

  write_entries-Moves :
      (root : Text) (w : P.Worktree) (o : PullRequest) (mode : WriteMode)
      (entries : List (Text × Text))
      → Moves I I (write_entries P root w o mode entries)
  unfolding write_entries
  write_entries-Moves root w o mode [] = Moves-pure tt
  write_entries-Moves root w o mode ((name, content) ∷ entries) =
      Keeps-bind _ _ (write_one-Moves root w o mode name content)
        (λ u. write_entries-Moves root w o mode entries)

  write_resources-Moves :
      (root : Text) (w : P.Worktree) (o : PullRequest) (refs : List ResourceRef)
      → Moves I I (write_resources P root w o refs)
  unfolding write_resources
  write_resources-Moves root w o [] = Moves-pure tt
  write_resources-Moves root w o (ref ∷ refs) =
      Keeps-bind _ _ (Moves-wrapped _ _ (process_resource_ref-Moves P I F ref o.namespace))
        (λ entries.
          Keeps-bind _ _ (write_entries-Moves root w o ref.strategy.write_mode entries)
            (λ u. write_resources-Moves root w o refs))

module _ (P : Platform) (I K J : P.World → Type 0) (F : IsPullRunFrame P I K J) where
  pushed-Pushed : (r : Result {0} Unit) → Moves K K (pushed P r)
  unfolding pushed
  pushed-Pushed (ok u) = Moves-pure tt
  pushed-Pushed (err e) = search keeps_rules depth 9

  push_branch-Moves : (repo : P.Repo) (auth : BasicAuth) → Moves I K (push_branch P repo auth)
  unfolding push_branch
  push_branch-Moves repo auth =
      Moves-bind_attempt (P.push repo auth) (pushed P) (F.pushed repo auth)
        (λ e. pushed-Pushed (err e)) (λ u. pushed-Pushed (ok u))

  answer-Created : (r : Result (ℕ × Text)) → Moves J J (answer P r)
  unfolding answer
  answer-Created (ok created) = search keeps_rules
  answer-Created (err e) = search keeps_rules

  request_pull-Moves : (o : PullRequest) (token : Text) → Moves K J (request_pull P o token)
  unfolding request_pull
  request_pull-Moves o token =
      Moves-bind _ _ (Moves-lift (parse_repository o.spec.repository))
        (λ (owner, name).
          Moves-bind_attempt (P.create_pull token owner name (new_pull_request o)) (answer P)
            (F.created token owner name (new_pull_request o)) (λ e. answer-Created (err e))
            (λ created. answer-Created (ok created)))
        F.unasked

  prepare :
      {A B : Type 0} (m : Exec P.World A) (f : A → Exec P.World B)
      → Moves I I m
      → ((a : A) → Moves I J (f a))
      → Moves I J (m >>= f)
  prepare m f k l = Moves-bind m f k l F.weaken

  publish-Moves :
      (repo : P.Repo) (w : P.Worktree) (o : PullRequest) (auth : BasicAuth) (token : Text)
      → Moves I J (publish P repo w o auth token)
  unfolding publish
  publish-Moves repo w o auth token = prepare _ _ (author-Moves P I F.work) (λ signature.
      prepare _ _ (F.work.commit_tree w (text "Changes for PR: " ++ o.spec.title) signature) (λ sha.
        Moves-bind_weaken _ _ (push_branch-Moves repo auth) (λ u. request_pull-Moves o token)
          F.unasked))

  create_in-Moves :
      (root : Text) (o : PullRequest) (auth : BasicAuth) (token : Text)
      → Moves I J (create_in P root o auth token)
  unfolding create_in
  create_in-Moves root o auth token =
      prepare _ _ (F.work.clone_repo root o.spec.repository auth) (λ repo.
        prepare _ _ (F.work.worktree repo) (λ w.
          prepare _ _ (checkout_branch-Moves P I F.work repo w o.spec.head_branch) (λ u.
            prepare _ _ (write_files-Moves P I F.work root w o o.spec.files) (λ u.
              prepare _ _ (write_resources-Moves P I F.work root w o o.spec.resource_refs)
                (λ u. publish-Moves repo w o auth token)))))

  pub create_pull_request-Moves :
      (o : PullRequest) (auth : BasicAuth) (token : Text)
      → Moves I J (create_pull_request P o auth token)
  unfolding create_pull_request create_in_temp
  create_pull_request-Moves o auth token =
      prepare _ _ (F.work.temp_dir (text "pull-request-")) (λ root.
        finally_remove-Moves P I J F.removed root (create_in P root o auth token)
          (create_in-Moves root o auth token))
