-- ===== src/Pull/Lifetime.antt =====
-- The life of a PullRequest over many reconciles, between which the rest of the world takes its steps.
use git_change_operator.Base.{◌≡◌, ◌≢◌, refl, ap, sym, ◌⊎◌, Text, Bool, true, false, []}
use mathlib.Core.Path.{subst}
use git_change_operator.Effects.{Error, Result, ok, err}
use git_change_operator.Effects.Rules.{Post}
use git_change_operator.Effects.Steps.{Reach, Reach-Keeps}
use git_change_operator.Api.Pull.{PullRequest, created, failed}
use git_change_operator.Platform.{Platform}
use git_change_operator.Effects.Moves.{Moves}
use git_change_operator.Commit.Ttl.Frames.{expired_at-Moves, expired_at-ne}
use git_change_operator.Pull.Reconcile.{check_ttl_expired, reconcile}
use git_change_operator.Pull.Reconcile.Laws.{
  pull_reconcile-finished, pull_reconcile-expired, pull_reconcile-missing,
}

-- Without a schedule, and Created or Failed.
abbrev pub IsFinished : PullRequest → Type 0
IsFinished o = (o.spec.schedule ≡ []) × ((o.status.phase ≡ created) ⊎ (o.status.phase ≡ failed))

-- The object's reconciles, and the steps of everything else.
pub data Step (P : Platform) (Env : P.World → P.World → Type 0) (namespace name : Text)
    (w w' : P.World) : Type 0 where
  reconciled : w' ≡ (reconcile P namespace name w).1 → Step P Env namespace name w w'
  elsewhere : Env w w' → Step P Env namespace name w w'

-- In the worlds of `Settled` the object is finished or cannot be read, and this is kept by reads of it,
-- by the clock, by its deletion, and by the steps of everything else.
pub record IsSettling (P : Platform) (Env : P.World → P.World → Type 0) (namespace name : Text)
    (Settled : P.World → Type 0) : Type 0 where
  pub read :
      (w : P.World)
      → Settled w
      → Post (λ o w'. IsFinished o × Settled w') (λ e w'. Settled w') (P.get_pull namespace name w)
  pub clock : (w : P.World) → Settled w → Settled (P.now w).1
  pub deletion : (o : PullRequest) (w : P.World) → Settled w → Settled (P.delete_pull o w).1
  pub rest : (w w' : P.World) → Env w w' → Settled w → Settled w'

module _ (P : Platform) (Env : P.World → P.World → Type 0) (namespace name : Text)
    (Settled : P.World → Type 0) (F : IsSettling P Env namespace name Settled) where
  expiry-Settled : (o : PullRequest) → Moves Settled Settled (check_ttl_expired P o)
  unfolding check_ttl_expired
  expiry-Settled o = expired_at-Moves P Settled F.clock o.spec.ttl_minutes o.creation_timestamp

  expiry-ne : (o : PullRequest) (w : P.World) (x : Error) → (check_ttl_expired P o w).0 ≢ err x
  unfolding check_ttl_expired
  expiry-ne o w x = expired_at-ne P o.spec.ttl_minutes o.creation_timestamp w x

  -- What the check of the time to live leads to, where it answers.
  finished-Settled :
      (w w₁ w₂ : P.World) (o : PullRequest)
      → P.get_pull namespace name w ≡ (ok o, w₁)
      → IsFinished o
      → (r : Result Bool) → check_ttl_expired P o w₁ ≡ (r, w₂)
      → Settled w₂
      → Settled (reconcile P namespace name w).1
  finished-Settled w w₁ w₂ o found (plain, over) (ok true) e h =
      subst (λ p. Settled p.1)
        (sym (pull_reconcile-expired P namespace name w w₁ w₂ o found plain e)) (F.deletion o w₂ h)
  finished-Settled w w₁ w₂ o found (plain, over) (ok false) e h =
      subst (λ p. Settled p.1)
        (sym (pull_reconcile-finished P namespace name w w₁ w₂ o found plain over e)) h
  finished-Settled w w₁ w₂ o found (plain, over) (err x) e h =
      absurd (expiry-ne o w₁ x (ap (λ p. p.0) e))

  read-Settled :
      (w w₁ : P.World) (r : Result PullRequest)
      → P.get_pull namespace name w ≡ (r, w₁)
      → Post (λ o w'. IsFinished o × Settled w') (λ e w'. Settled w') (r, w₁)
      → Settled (reconcile P namespace name w).1
  read-Settled w w₁ (ok o) e (done, h) =
      finished-Settled w w₁ (check_ttl_expired P o w₁).1 o e done (check_ttl_expired P o w₁).0 refl
        ((expiry-Settled o).at w₁ h)
  read-Settled w w₁ (err x) e h =
      subst (λ p. Settled p.1) (sym (pull_reconcile-missing P namespace name w w₁ x e)) h

  Step-Settled : (w w' : P.World) → Step P Env namespace name w w' → Settled w → Settled w'
  Step-Settled w w' (reconciled e) h = subst Settled (sym e) (
      read-Settled w (P.get_pull namespace name w).1 (P.get_pull namespace name w).0 refl
        (F.read w h))
  Step-Settled w w' (elsewhere e) h = F.rest w w' e h

  -- A PullRequest without a schedule that is Created or Failed stays settled for good: over any number
  -- of its reconciles, and whatever steps the rest of the world takes between them that leave the object
  -- finished or gone, no call is made but reads of the object and of the clock and its deletion. In
  -- particular, with `Settled` for a number of requests too, no pull request is asked for again.
  pub pull_settled-forever :
      {w w' : P.World} → Settled w → Reach (Step P Env namespace name) w w' → Settled w'
  pull_settled-forever h r = Reach-Keeps Settled Step-Settled h r
