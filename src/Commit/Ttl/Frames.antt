-- ===== src/Commit/Ttl/Frames.antt =====
-- What `checkTTLExpired` touches of the world.
use git_change_operator.Base.{◌≢◌, ℕ, Option, none, some}
use git_change_operator.Base.Words.{Time}
use git_change_operator.Effects.{Error, err}
use git_change_operator.Effects.Moves.{Moves}
use git_change_operator.Api.Commit.{GitCommit}
use git_change_operator.Platform.{Platform}
use git_change_operator.Commit.Ttl.{expired_at, check_ttl_expired}

module _ (P : Platform) (I : P.World → Type 0) (ticks : (w : P.World) → I w → I (P.now w).1) where
  pub expired_at-Moves : (ttl : Option ℕ) (created : Time) → Moves I I (expired_at P ttl created)
  unfolding expired_at
  expired_at-Moves none created = record { at = λ w h. h }
  expired_at-Moves (some n) created = record { at = λ w h. ticks w h }

  pub check_ttl_expired-Moves : (o : GitCommit) → Moves I I (check_ttl_expired P o)
  unfolding check_ttl_expired
  check_ttl_expired-Moves o = expired_at-Moves o.spec.ttl_minutes o.creation_timestamp

module _ (P : Platform) where
  pub expired_at-ne :
      (ttl : Option ℕ) (created : Time) (w : P.World) (x : Error)
      → (expired_at P ttl created w).0 ≢ err x
  unfolding expired_at
  expired_at-ne none created w x h = cc
  expired_at-ne (some n) created w x h = cc

  -- The check of the time to live does not fail.
  pub check_ttl_expired-ne :
      (o : GitCommit) (w : P.World) (x : Error) → (check_ttl_expired P o w).0 ≢ err x
  unfolding check_ttl_expired
  check_ttl_expired-ne o w x = expired_at-ne o.spec.ttl_minutes o.creation_timestamp w x
