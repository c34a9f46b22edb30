-- ===== src/Commit/Lifetime.antt =====
-- The life of a GitCommit over many reconciles, between which the rest of the world takes its steps.
use git_change_operator.Base.{◌≡◌, refl, ap, sym, ◌⊎◌, Text, Bool, true, false, []}
use mathlib.Core.Path.{subst}
use git_change_operator.Effects.{Result, ok, err}
use git_change_operator.Effects.Rules.{Post}
use git_change_operator.Effects.Steps.{Reach, Reach-Keeps}
use git_change_operator.Api.Commit.{GitCommit, committed, failed}
use git_change_operator.Platform.{Platform}
use git_change_operator.Commit.Ttl.{check_ttl_expired}
use git_change_operator.Commit.Ttl.Frames.{check_ttl_expired-Moves, check_ttl_expired-ne}
use git_change_operator.Commit.Reconcile.{reconcile}
use git_change_operator.Commit.Reconcile.Laws.{
  reconcile-finished, reconcile-expired, reconcile-missing,
}

-- Without a schedule, and Committed or Failed.
abbrev pub IsFinished : GitCommit → Type 0
IsFinished o = (o.spec.schedule ≡ []) × ((o.status.phase ≡ committed) ⊎ (o.status.phase ≡ failed))

-- The object's reconciles, and the steps of everything else.
pub data Step (P : Platform) (Env : P.World → P.World → Type 0) (namespace name : Text)
    (w w' : P.World) : Type 0 where
  reconciled : w' ≡ (reconcile P namespace name w).1 → Step P Env namespace name w w'
  elsewhere : Env w w' → Step P Env namespace name w w'

-- In the worlds of `Settled` the object is finished or cannot be read, and this is kept by reads of it,
-- by the clock, by its deletion, and by the steps of everything else.
pub record IsSettling (P : Platform) (Env : P.World → P.World → Type 0) (namespace name : Text)
    (Settled : P.World → Type 0) : Type 0 where
  pub read :
      (w : P.World)
      → Settled w
      → Post
          (λ o w'. IsFinished o × Settled w')
          (λ e w'. Settled w')
          (P.get_commit namespace name w)
  pub clock : (w : P.World) → Settled w → Settled (P.now w).1
  pub deletion : (o : GitCommit) (w : P.World) → Settled w → Settled (P.delete_commit o w).1
  pub rest : (w w' : P.World) → Env w w' → Settled w → Settled w'

module _ (P : Platform) (Env : P.World → P.World → Type 0) (namespace name : Text)
    (Settled : P.World → Type 0) (F : IsSettling P Env namespace name Settled) where
  -- What the check of the time to live leads to, where it answers.
  finished-Settled :
      (w w₁ w₂ : P.World) (o : GitCommit)
      → P.get_commit namespace name w ≡ (ok o, w₁)
      → IsFinished o
      → (r : Result Bool) → check_ttl_expired P o w₁ ≡ (r, w₂)
      → Settled w₂
      → Settled (reconcile P namespace name w).1
  finished-Settled w w₁ w₂ o found (plain, over) (ok true) e h =
      subst (λ p. Settled p.1) (sym (reconcile-expired P namespace name w w₁ w₂ o found plain e))
        (F.deletion o w₂ h)
  finished-Settled w w₁ w₂ o found (plain, over) (ok false) e h =
      subst (λ p. Settled p.1)
        (sym (reconcile-finished P namespace name w w₁ w₂ o found plain over e)) h
  finished-Settled w w₁ w₂ o found (plain, over) (err x) e h =
      absurd (check_ttl_expired-ne P o w₁ x (ap (λ p. p.0) e))

  read-Settled :
      (w w₁ : P.World) (r : Result GitCommit)
      → P.get_commit namespace name w ≡ (r, w₁)
      → Post (λ o w'. IsFinished o × Settled w') (λ e w'. Settled w') (r, w₁)
      → Settled (reconcile P namespace name w).1
  read-Settled w w₁ (ok o) e (done, h) =
      finished-Settled w w₁ (check_ttl_expired P o w₁).1 o e done (check_ttl_expired P o w₁).0 refl
        ((check_ttl_expired-Moves P Settled F.clock o).at w₁ h)
  read-Settled w w₁ (err x) e h =
      subst (λ p. Settled p.1) (sym (reconcile-missing P namespace name w w₁ x e)) h

  Step-Settled : (w w' : P.World) → Step P Env namespace name w w' → Settled w → Settled w'
  Step-Settled w w' (reconciled e) h = subst Settled (sym e) (
      read-Settled w (P.get_commit namespace name w).1 (P.get_commit namespace name w).0 refl
        (F.read w h))
  Step-Settled w w' (elsewhere e) h = F.rest w w' e h

  -- A GitCommit without a schedule that is Committed or Failed stays settled for good: over any number
  -- of its reconciles, and whatever steps the rest of the world takes between them that leave the object
  -- finished or gone, no call is made but reads of the object and of the clock and its deletion. In
  -- particular, with `Settled` for a number of pushes too, nothing is pushed for it again.
  pub settled-forever :
      {w w' : P.World} → Settled w → Reach (Step P Env namespace name) w w' → Settled w'
  settled-forever h r = Reach-Keeps Settled Step-Settled h r
