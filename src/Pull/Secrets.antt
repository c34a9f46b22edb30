-- ===== src/Pull/Secrets.antt =====
-- The credentials of the PullRequest controller. Its reads of tokens and recipients are those of the
-- GitCommit controller, word for word.
pub mod Frames
use git_change_operator.Base.{Text, text}
use git_change_operator.Effects.{Exec, lift, pure, ◌>>=◌}
use git_change_operator.Platform.{Platform, BasicAuth}
use git_change_operator.Commit.Secrets.{key_or, required_key, username_of}

module _ (P : Platform) where
  open P use {World, get_secret}

  -- The credentials for Git, and the token alone for GitHub.
  unfoldable pub get_auth_from_secret : Text → Text → Text → Exec World (BasicAuth × Text)
  unfolding key_or required_key username_of
  get_auth_from_secret namespace secret_name secret_key = do
    secret ← get_secret namespace secret_name
    token ← lift (required_key (key_or secret_key (text "token")) secret_name secret)
    pure (record { username = username_of secret; password = token }, token)
