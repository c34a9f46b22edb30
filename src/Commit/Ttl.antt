-- ===== src/Commit/Ttl.antt =====
-- `checkTTLExpired`
pub mod Laws
pub mod Frames
use git_change_operator.Base.{ℕ, Bool, false, Option, none, some, ltb}
use git_change_operator.Base.Words.{Time, minute, multiply, add_duration}
use git_change_operator.Effects.{Exec, ok}
use git_change_operator.Api.Commit.{GitCommit}
use git_change_operator.Platform.{Platform}

-- The expiration time, where a time to live is set. The product is one of `int64` values.
unfoldable pub expiration_time : Time → ℕ → Time
expiration_time created ttl_minutes = add_duration created (multiply ttl_minutes minute)

module _ (P : Platform) where
  open P use {World, now}

  -- `now.After(expirationTime)`
  unfoldable pub expired_at : Option ℕ → Time → Exec World Bool
  unfolding expiration_time
  expired_at none created w = (ok false, w)
  expired_at (some ttl) created w =
      let (t, w') = now w in (ok (ltb (expiration_time created ttl) t), w')

  unfoldable pub check_ttl_expired : GitCommit → Exec World Bool
  unfolding expired_at
  check_ttl_expired o = expired_at o.spec.ttl_minutes o.creation_timestamp
