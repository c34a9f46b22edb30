-- ===== src/Commit/Reconcile/Scheduled.antt =====
-- A reconcile of a GitCommit with a schedule.
use git_change_operator.Base.{◌≡◌, ◌≢◌, Text, [], is_nil-ne}
use git_change_operator.Effects.{ok}
use git_change_operator.Api.Commit.{GitCommit}
use git_change_operator.Platform.{Platform}
use git_change_operator.Platform.Frames.{IsRunFrame}
use git_change_operator.Commit.Schedule.Pushes.{handle_scheduled-Moves}
use git_change_operator.Commit.Status.{State}
use git_change_operator.Commit.Reconcile.{handle, dispatch, reconcile}

module _ (P : Platform) (I : P.World → Type 0) (F : IsRunFrame P I I) where
  handle-Keeps : (s : State P) → s.object.spec.schedule ≢ [] → I s.world → I (handle P s).1.world
  unfolding handle
  handle-Keeps s scheduled h =
      rw (is_nil-ne s.object.spec.schedule scheduled) ((handle_scheduled-Moves P I I F).at s h)

  -- A GitCommit with a schedule is never deleted by its reconcile, whatever its time to live. Put
  -- generally: a reconcile that reads such a GitCommit keeps every property of the world that all its
  -- calls but the deletion keep.
  pub reconcile-scheduled :
      (namespace name : Text) (w w₁ : P.World) (o : GitCommit)
      → P.get_commit namespace name w ≡ (ok o, w₁)
      → o.spec.schedule ≢ []
      → I w₁
      → I (reconcile P namespace name w).1
  unfolding reconcile dispatch
  reconcile-scheduled namespace name w w₁ o found scheduled h =
      rw found (handle-Keeps (record { world = w₁; object = o }) scheduled h)
