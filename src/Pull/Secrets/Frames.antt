-- ===== src/Pull/Secrets/Frames.antt =====
-- What the reads of credentials touch of the world.
use git_change_operator.Base.{Text}
use git_change_operator.Effects.Moves.{Moves, keeps_rules}
use git_change_operator.Platform.{Platform}
use git_change_operator.Platform.Frames.{IsWorkFrame}
use git_change_operator.Pull.Secrets.{get_auth_from_secret}

module _ (P : Platform) (I : P.World → Type 0) (F : IsWorkFrame P I) where
  pub get_auth_from_secret-Moves :
      (namespace name key : Text) → Moves I I (get_auth_from_secret P namespace name key)
  unfolding get_auth_from_secret
  get_auth_from_secret-Moves namespace name key = search (keeps_rules, F.get_secret) depth 20
