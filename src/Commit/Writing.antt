-- ===== src/Commit/Writing.antt =====
-- `performGitCommit`: clone, check out, write and stage the files, commit and push.
pub mod Laws
pub mod Frames
use git_change_operator.Base.{Text, text, Bool, true, false, not, ◌&&◌, Option, none, some}
use git_change_operator.Base.{List, [], ◌∷◌, ◌++◌, if◌then◌else◌, is_nil, text_eq}
use git_change_operator.Base.Paths.{slash, join_path, dir}
use git_change_operator.Effects.{
  Error, other, Result, ok, err, Exec, pure, raise, lift, attempt, wrapped, ◌>>=◌, ◌>>◌,
}
use git_change_operator.Api.Rest.{RestApiStatus}
use git_change_operator.Api.Files.{File, ResourceRef, Encryption, WriteMode, append, overwrite}
use git_change_operator.Api.Commit.{GitCommit}
use git_change_operator.Platform.{Platform, BasicAuth, Signature}
use git_change_operator.Encryption.{should_encrypt_file, get_encrypted_file_path}
use git_change_operator.Commit.Secrets.{encrypt_file_content}
use git_change_operator.Commit.Content.{build_file_content}
use git_change_operator.Commit.Resources.{process_resource_ref}

abbrev pub is_append : WriteMode → Bool
is_append append = true
is_append _ = false

-- Whether the branch of the spec is checked out at all.
unfoldable pub needs_checkout : Text → Bool
needs_checkout branch =
    not (is_nil branch)
    && not (text_eq branch (text "main"))
    && not (text_eq branch (text "master"))

-- `plumbing.NewBranchReferenceName`
abbrev pub branch_reference : Text → Text
branch_reference branch = text "refs/heads/" ++ branch

module _ (P : Platform) where
  open P use {World, now, temp_dir, remove_all, make_dirs, read_file, write_file}
  open P use {Repo, Worktree, clone_repo, worktree, checkout, head, set_reference, stage}
  open P use {commit_tree, push}

  -- Creates the branch; where that fails, points it at the head and checks it out.
  unfoldable pub checkout_branch : Repo → Worktree → Text → Exec World Unit
  checkout_branch repo w branch = do
    r ← attempt (checkout w (branch_reference branch) true)
    elim r [
      | ok _ ↦ pure tt
      | err _ ↦ do
        hash ← head repo
        set_reference repo (branch_reference branch) hash
        checkout w (branch_reference branch) false
    ]

  -- What a file of the spec is to hold.
  unfoldable pub source_content : File → List RestApiStatus → Result Text
  source_content file statuses =
      if file.use_rest_api_data
      then (let content = build_file_content file statuses in
          if is_nil content
          then err (
              other (
                text "file "
                ++ (file.path
                    ++ text " requested REST API data but no formatted output available")))
          else ok content)
      else ok file.content

  -- The content and the path after the encryption that the configuration asks for.
  encrypt_target : Text → Text → Option Encryption → Text → Text → Exec World (Text × Text)
  encrypt_target complaint namespace config path content =
      if should_encrypt_file path config
      then (do
        encrypted ←
            wrapped (complaint ++ (path ++ text ": "))
              (encrypt_file_content P namespace content config)
        pure (encrypted, get_encrypted_file_path path config))
      else pure (content, path)

  -- The bytes of a file, none if it cannot be read.
  existing_content : Text → Exec World Text
  existing_content path = do
    r ← attempt (read_file path)
    elim r [ ok old ↦ pure old | err _ ↦ pure [] ]

  unfoldable pub final_content : WriteMode → Text → Text → Exec World Text
  unfolding existing_content
  final_content mode path content =
      if is_append mode
      then (do old ← existing_content path; pure (old ++ content))
      else pure content

  -- One file of the spec. With `append` the (encrypted) content goes behind what the target holds.
  write_spec_file : Text → Worktree → GitCommit → File → Exec World Unit
  write_spec_file root w o file = do
    content ← lift (source_content file o.status.rest_api_statuses)
    (bytes, target) ←
        encrypt_target (text "failed to encrypt file ") o.namespace o.spec.encryption file.path
          content
    make_dirs (dir (join_path root target))
    final ← final_content file.write_mode (join_path root target) bytes
    write_file (join_path root target) final
    stage w target

  write_spec_files : Text → Worktree → GitCommit → List File → Exec World Unit
  write_spec_files root w o [] = pure tt
  write_spec_files root w o (f ∷ fs) = do write_spec_file root w o f; write_spec_files root w o fs

  -- The content of a file of a resource; with `append`, on a line behind the old content.
  pub resource_content : Text → File → Exec World Text
  resource_content root file =
      if is_append file.write_mode
      then (do
        r ← attempt (read_file (join_path root file.path))
        elim r [ ok old ↦ pure (old ++ (b'\n' ∷ file.content)) | err _ ↦ pure file.content ])
      else pure file.content

  write_resource_file : Text → Worktree → GitCommit → File → Exec World Unit
  write_resource_file root w o file = do
    content ← resource_content root file
    (bytes, target) ←
        encrypt_target (text "failed to encrypt resource file ") o.namespace o.spec.encryption
          file.path content
    make_dirs (dir (join_path root target))
    write_file (join_path root target) bytes
    stage w target

  write_resource_files : Text → Worktree → GitCommit → List File → Exec World Unit
  write_resource_files root w o [] = pure tt
  write_resource_files root w o (f ∷ fs) = do
    write_resource_file root w o f
    write_resource_files root w o fs

  write_resources : Text → Worktree → GitCommit → List ResourceRef → Exec World Unit
  write_resources root w o [] = pure tt
  write_resources root w o (ref ∷ refs) = do
    files ←
        wrapped
          (text "failed to process resource reference "
            ++ (ref.kind ++ (slash ∷ ref.name ++ text ": ")))
          (process_resource_ref P ref o.namespace)
    write_resource_files root w o files
    write_resources root w o refs

  -- The author, with the time of the call.
  unfoldable pub author : Exec World Signature
  author world =
      let (t, world') = now world in
      (
        ok (record {
          name = text "Git Change Operator";
          email = text "git-change-operator@galos.one";
          when = t;
        }),
        world',
      )

  -- What is done in the temporary directory.
  commit_in : Text → GitCommit → BasicAuth → Exec World Text
  commit_in root o auth = do
    repo ← clone_repo root o.spec.repository auth
    w ← worktree repo
    if needs_checkout o.spec.branch then checkout_branch repo w o.spec.branch else pure tt
    write_spec_files root w o o.spec.files
    write_resources root w o o.spec.resource_refs
    signature ← author
    sha ← commit_tree w o.spec.commit_message signature
    push repo auth
    pure sha

  -- `defer os.RemoveAll(tempDir)`: on return and on error alike.
  unfoldable pub finally_remove : {A : Type 0} → Text → Result A × World → Result A × World
  finally_remove root (r, world) = (r, remove_all root world)

  commit_in_temp : GitCommit → BasicAuth → Exec World Text
  commit_in_temp o auth = do
    root ← temp_dir (text "git-commit-")
    λ world. finally_remove root (commit_in root o auth world)

  unfoldable pub perform_git_commit : GitCommit → BasicAuth → Exec World Text
  unfolding commit_in_temp finally_remove commit_in author write_resources write_resource_files
      write_resource_file resource_content write_spec_files write_spec_file final_content
      existing_content encrypt_target source_content checkout_branch
  perform_git_commit = commit_in_temp
