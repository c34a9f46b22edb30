-- ===== src/Pull/Writing.antt =====
-- `createPullRequest`: clone, check out, write and stage the files, commit, push, and ask GitHub for a
-- pull request.
pub mod Creations
use git_change_operator.Base.{ℕ, Text, text, Bool, true, false, ◌||◌, Option, List, [], ◌∷◌, ◌++◌}
use git_change_operator.Base.{if◌then◌else◌, contains}
use git_change_operator.Base.Paths.{join_path, dir}
use git_change_operator.Effects.{
  Error, error_text, wrap, Result, ok, err, Exec, pure, raise, lift, attempt, wrapped, ◌>>=◌, ◌>>◌,
}
use git_change_operator.Api.Files.{File, ResourceRef, Encryption, WriteMode}
use git_change_operator.Api.Pull.{PullRequest}
use git_change_operator.Platform.{Platform, BasicAuth, NewPullRequest}
use git_change_operator.Encryption.{should_encrypt_file, get_encrypted_file_path}
use git_change_operator.Commit.Secrets.{encrypt_file_content}
use git_change_operator.Commit.Writing.{
  checkout_branch, source_content, final_content, author, finally_remove,
}
use git_change_operator.Pull.Resources.{process_resource_ref}
use git_change_operator.Pull.Repository.{parse_repository}

-- The path for the bytes of the file `name`, which is `path` or its encrypted variant.
unfoldable pub target_of : Option Encryption → Text → Text → Text
target_of config name path =
    if should_encrypt_file name config then get_encrypted_file_path path config else path

-- The error of a request to GitHub, with a hint where the permissions are at fault.
unfoldable pub explain : Error → Error
explain e =
    if contains (error_text e) (text "Resource not accessible by personal access token")
    then wrap
        (text
          "insufficient GitHub token permissions - token needs 'repo' and 'pull_requests:write' scopes to create pull requests: ")
        e
    else if contains (error_text e) (text "403") || contains (error_text e) (text "Forbidden")
    then wrap (text "GitHub API access denied - check token permissions and repository access: ") e
    else wrap (text "failed to create GitHub pull request: ") e

unfoldable pub new_pull_request : PullRequest → NewPullRequest
new_pull_request o = record {
  title = o.spec.title;
  head = o.spec.head_branch;
  base = o.spec.base_branch;
  body = o.spec.body;
  maintainer_can_modify = true;
}

module _ (P : Platform) where
  open P use {World, temp_dir, make_dirs, write_file, Repo, Worktree, clone_repo, worktree, stage}
  open P use {commit_tree, push, create_pull}

  -- The bytes of a file, encrypted if the configuration asks for it.
  seal : PullRequest → Text → Text → Exec World Text
  seal o name content =
      if should_encrypt_file name o.spec.encryption
      then wrapped (text "failed to encrypt file " ++ (name ++ text ": "))
          (encrypt_file_content P o.namespace content o.spec.encryption)
      else pure content

  -- One file, of the spec or of a resource. With `append` the content goes behind what the plain path
  -- holds, before the encryption.
  write_one : Text → Worktree → PullRequest → WriteMode → Text → Text → Exec World Unit
  write_one root w o mode name content = do
    make_dirs (dir (join_path root name))
    final ← final_content P mode (join_path root name) content
    bytes ← seal o name final
    write_file (target_of o.spec.encryption name (join_path root name)) bytes
    stage w (target_of o.spec.encryption name name)

  write_files : Text → Worktree → PullRequest → List File → Exec World Unit
  write_files root w o [] = pure tt
  write_files root w o (f ∷ fs) = do
    content ← lift (source_content P f o.status.rest_api_statuses)
    write_one root w o f.write_mode f.path content
    write_files root w o fs

  write_entries : Text → Worktree → PullRequest → WriteMode → List (Text × Text) → Exec World Unit
  write_entries root w o mode [] = pure tt
  write_entries root w o mode ((name, content) ∷ entries) = do
    write_one root w o mode name content
    write_entries root w o mode entries

  write_resources : Text → Worktree → PullRequest → List ResourceRef → Exec World Unit
  write_resources root w o [] = pure tt
  write_resources root w o (ref ∷ refs) = do
    entries ←
        wrapped (text "failed to process resource reference " ++ (ref.name ++ text ": "))
          (process_resource_ref P ref o.namespace)
    write_entries root w o ref.strategy.write_mode entries
    write_resources root w o refs

  -- A branch that is ahead already counts as pushed.
  pushed : Result {0} Unit → Exec World Unit
  pushed (ok u) = pure tt
  pushed (err e) =
      if contains (error_text e) (text "non-fast-forward update") then pure tt else raise e

  push_branch : Repo → BasicAuth → Exec World Unit
  push_branch repo auth = do r ← attempt (push repo auth); pushed r

  -- The answer of GitHub.
  answer : Result (ℕ × Text) → Exec World (ℕ × Text)
  answer (ok created) = pure created
  answer (err e) = raise (explain e)

  request_pull : PullRequest → Text → Exec World (ℕ × Text)
  request_pull o token = do
    (owner, name) ← lift (parse_repository o.spec.repository)
    r ← attempt (create_pull token owner name (new_pull_request o))
    answer r

  -- From the commit on.
  publish : Repo → Worktree → PullRequest → BasicAuth → Text → Exec World (ℕ × Text)
  publish repo w o auth token = do
    signature ← author P
    _ ← commit_tree w (text "Changes for PR: " ++ o.spec.title) signature
    push_branch repo auth
    request_pull o token

  -- What is done in the temporary directory.
  create_in : Text → PullRequest → BasicAuth → Text → Exec World (ℕ × Text)
  create_in root o auth token = do
    repo ← clone_repo root o.spec.repository auth
    w ← worktree repo
    checkout_branch P repo w o.spec.head_branch
    write_files root w o o.spec.files
    write_resources root w o o.spec.resource_refs
    publish repo w o auth token

  create_in_temp : PullRequest → BasicAuth → Text → Exec World (ℕ × Text)
  create_in_temp o auth token = do
    root ← temp_dir (text "pull-request-")
    λ w. finally_remove P root (create_in root o auth token w)

  unfoldable pub create_pull_request : PullRequest → BasicAuth → Text → Exec World (ℕ × Text)
  unfolding create_in_temp create_in publish request_pull answer push_branch pushed write_resources
      write_entries write_files write_one seal checkout_branch source_content final_content author
      finally_remove
  create_pull_request = create_in_temp
