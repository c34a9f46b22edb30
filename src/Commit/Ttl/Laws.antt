-- ===== src/Commit/Ttl/Laws.antt =====
-- When a resource expires.
use git_change_operator.Base.{ℕ, ◌+◌, ◌*◌, ◌≤◌, ◌<◌, ◌≡◌, true, some, arith}
use git_change_operator.Base.{◌↔◌, Option-cases, inl, inr}
use git_change_operator.Base.Words.{Time, minute, multiply, add_duration}
use git_change_operator.Effects.{ok}
use git_change_operator.Api.Commit.{GitCommit}
use git_change_operator.Platform.{Platform}
use git_change_operator.Commit.Ttl.{expiration_time, check_ttl_expired}

-- Within the CRD's range of `ttlMinutes` the product does not wrap.
pub expiration_time-eq :
    (created : Time) (ttl : ℕ) → ttl ≤ 43200 → expiration_time created ttl ≡ created + ttl * minute
unfolding expiration_time multiply add_duration
expiration_time-eq created ttl h = ground arith

-- A GitCommit whose time to live is in the CRD's range (or unset) counts as expired exactly when a time
-- to live is set and the clock has passed the creation time by more than that many minutes. The check
-- itself never fails.
pub check_ttl_expired_iff :
    (P : Platform) (o : GitCommit) (w : Platform.World P)
    → ((n : ℕ) → o.spec.ttl_minutes ≡ some n → n ≤ 43200)
    → ((check_ttl_expired P o w).0 ≡ ok true) ↔ (
        (n : ℕ) × (o.spec.ttl_minutes ≡ some n) × (o.creation_timestamp + n * minute < (P.now w).0))
unfolding check_ttl_expired
check_ttl_expired_iff P o w h = elim (Option-cases o.spec.ttl_minutes) [
  | inl e ↦ (λ x. ground arith, λ (n, x, y). ground arith)
  | inr (n, e) ↦ (
    λ x. (n, e, ground (arith, expiration_time-eq o.creation_timestamp n (h n e))),
    λ (m, x, y). ground (arith, expiration_time-eq o.creation_timestamp m (h m x)),
  )
]
