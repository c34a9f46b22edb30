-- ===== src/Commit/Writing/Frames.antt =====
-- What `performGitCommit` touches of the world.
use git_change_operator.Base.{Text, text, Option, List, [], ◌∷◌, Bool}
use git_change_operator.Effects.{Exec, pure, ◌>>=◌}
use git_change_operator.Effects.Moves.{
  Moves, Moves-pure, Moves-wrapped, Keeps-bind, Moves-bind, Moves-bind_weaken, keeps_rules,
}
use git_change_operator.Api.Files.{File, ResourceRef, Encryption, WriteMode}
use git_change_operator.Api.Commit.{GitCommit}
use git_change_operator.Platform.{Platform, BasicAuth}
use git_change_operator.Platform.Frames.{IsWorkFrame}
use git_change_operator.Commit.Secrets.Frames.{encrypt_file_content-Moves}
use git_change_operator.Commit.Resources.Frames.{process_resource_ref-Moves}
use git_change_operator.Base.{if◌then◌else◌}
use git_change_operator.Commit.Writing.{
  needs_checkout, checkout_branch, encrypt_target, existing_content, final_content, write_spec_file,
  write_spec_files, resource_content, write_resource_file, write_resource_files, write_resources,
  author, commit_in, finally_remove, commit_in_temp, perform_git_commit,
}

module _ (P : Platform) (I : P.World → Type 0) (F : IsWorkFrame P I) where
  pub checkout_branch-Moves :
      (repo : P.Repo) (w : P.Worktree) (branch : Text) → Moves I I (checkout_branch P repo w branch)
  unfolding checkout_branch
  checkout_branch-Moves repo w branch =
      search (keeps_rules, F.checkout, F.head, F.set_reference) depth 20

  encrypt_target-Moves :
      (complaint namespace : Text) (config : Option Encryption) (path content : Text)
      → Moves I I (encrypt_target P complaint namespace config path content)
  unfolding encrypt_target
  encrypt_target-Moves complaint namespace config path content =
      search (keeps_rules, encrypt_file_content-Moves P I F) depth 20

  existing_content-Moves : (path : Text) → Moves I I (existing_content P path)
  unfolding existing_content
  existing_content-Moves path = search (keeps_rules, F.read_file) depth 20

  pub final_content-Moves :
      (mode : WriteMode) (path content : Text) → Moves I I (final_content P mode path content)
  unfolding final_content
  final_content-Moves mode path content = search (keeps_rules, existing_content-Moves) depth 20

  write_spec_file-Moves :
      (root : Text) (w : P.Worktree) (o : GitCommit) (file : File)
      → Moves I I (write_spec_file P root w o file)
  unfolding write_spec_file
  write_spec_file-Moves root w o file =
      search
        (keeps_rules, encrypt_target-Moves, final_content-Moves, F.make_dirs, F.write_file, F.stage)
        depth 30

  write_spec_files-Moves :
      (root : Text) (w : P.Worktree) (o : GitCommit) (files : List File)
      → Moves I I (write_spec_files P root w o files)
  unfolding write_spec_files
  write_spec_files-Moves root w o [] = Moves-pure tt
  write_spec_files-Moves root w o (f ∷ fs) =
      Keeps-bind _ _ (write_spec_file-Moves root w o f) (λ u. write_spec_files-Moves root w o fs)

  resource_content-Moves : (root : Text) (file : File) → Moves I I (resource_content P root file)
  unfolding resource_content
  resource_content-Moves root file = search (keeps_rules, F.read_file) depth 20

  write_resource_file-Moves :
      (root : Text) (w : P.Worktree) (o : GitCommit) (file : File)
      → Moves I I (write_resource_file P root w o file)
  unfolding write_resource_file
  write_resource_file-Moves root w o file =
      search
        (
          keeps_rules, encrypt_target-Moves, resource_content-Moves, F.make_dirs, F.write_file,
          F.stage,
        )
        depth 30

  write_resource_files-Moves :
      (root : Text) (w : P.Worktree) (o : GitCommit) (files : List File)
      → Moves I I (write_resource_files P root w o files)
  unfolding write_resource_files
  write_resource_files-Moves root w o [] = Moves-pure tt
  write_resource_files-Moves root w o (f ∷ fs) =
      Keeps-bind _ _ (write_resource_file-Moves root w o f)
        (λ u. write_resource_files-Moves root w o fs)

  write_resources-Moves :
      (root : Text) (w : P.Worktree) (o : GitCommit) (refs : List ResourceRef)
      → Moves I I (write_resources P root w o refs)
  unfolding write_resources
  write_resources-Moves root w o [] = Moves-pure tt
  write_resources-Moves root w o (ref ∷ refs) =
      Keeps-bind _ _ (Moves-wrapped _ _ (process_resource_ref-Moves P I F ref o.namespace))
        (λ files.
          Keeps-bind _ _ (write_resource_files-Moves root w o files)
            (λ u. write_resources-Moves root w o refs))

  pub author-Moves : Moves I I (author P)
  unfolding author
  author-Moves = record { at = λ w h. F.now w h }

module _ (P : Platform) (I J : P.World → Type 0)
    (removed : (path : Text) (w : P.World) → J w → J (P.remove_all path w)) where
  pub finally_remove-Moves :
      {A : Type 0} (root : Text) (m : Exec P.World A)
      → Moves I J m
      → Moves I J (λ w. finally_remove P root (m w))
  unfolding finally_remove
  finally_remove-Moves root m k = record { at = λ w h. removed root (m w).1 (k.at w h) }

module _ (P : Platform) (I J : P.World → Type 0) (F : IsWorkFrame P I)
    (weaken : (w : P.World) → I w → J w)
    (pushed : (repo : P.Repo) (auth : BasicAuth) → Moves I J (P.push repo auth))
    (removed : (path : Text) (w : P.World) → J w → J (P.remove_all path w)) where
  push-Moves :
      (repo : P.Repo) (auth : BasicAuth) (sha : Text)
      → Moves I J (P.push repo auth >>= λ u. pure sha)
  push-Moves repo auth sha =
      Moves-bind_weaken (P.push repo auth) (λ u. pure sha) (pushed repo auth) (λ u. Moves-pure sha)
        (λ s h. h)

  prepare :
      {A B : Type 0} (m : Exec P.World A) (f : A → Exec P.World B)
      → Moves I I m
      → ((a : A) → Moves I J (f a))
      → Moves I J (m >>= f)
  prepare m f k l = Moves-bind m f k l weaken

  maybe_checkout :
      (b : Bool) (repo : P.Repo) (w : P.Worktree) (branch : Text)
      → Moves I I (if b then checkout_branch P repo w branch else pure tt)
  maybe_checkout b repo w branch = search (keeps_rules, checkout_branch-Moves P I F) depth 20

  commit_in-Moves :
      (root : Text) (o : GitCommit) (auth : BasicAuth) → Moves I J (commit_in P root o auth)
  unfolding commit_in
  commit_in-Moves root o auth = prepare _ _ (F.clone_repo root o.spec.repository auth) (λ repo.
      prepare _ _ (F.worktree repo) (λ w.
        prepare _ _ (maybe_checkout (needs_checkout o.spec.branch) repo w o.spec.branch) (λ u.
          prepare _ _ (write_spec_files-Moves P I F root w o o.spec.files) (λ u.
            prepare _ _ (write_resources-Moves P I F root w o o.spec.resource_refs) (λ u.
              prepare _ _ (author-Moves P I F) (λ signature.
                prepare _ _ (F.commit_tree w o.spec.commit_message signature)
                  (λ sha. push-Moves repo auth sha)))))))

  pub perform_git_commit-Moves :
      (o : GitCommit) (auth : BasicAuth) → Moves I J (perform_git_commit P o auth)
  unfolding perform_git_commit commit_in_temp
  perform_git_commit-Moves o auth = prepare _ _ (F.temp_dir (text "git-commit-")) (λ root.
      finally_remove-Moves P I J removed root (commit_in P root o auth)
        (commit_in-Moves root o auth))
