-- ===== src/Main/Laws.antt =====
-- The controllers that a process starts.
use mathlib.Core.List.{append_assoc}
use git_change_operator.Base.{
  ◌≡◌, ◌≢◌, refl, ◌∙◌, ap, Text, text, List, [], ◌∷◌, ◌++◌, if◌then◌else◌, text_eq, is_nil,
  Bool-cases, inl, inr,
}
use git_change_operator.Base.Flags.{parsed, parse_flags}
use git_change_operator.Effects.{Result, ok, err}
use git_change_operator.Effects.Rules.{Post, Post-bind, Post-map}
use git_change_operator.Effects.Moves.{Moves, Keeps-bind, kept}
use git_change_operator.Main.{
  ManagerOptions, Reconciler, git_change_operator_reconciler, git_commit_reconciler,
  pull_request_reconciler, Builder, Runtime, returned, exited, operator_builder, commit_builder,
  pull_builder, Vars, defaults, flags, with_namespace, setup, run, ending, launch, main,
}

-- `Complete` adds a controller to the manager's, and the other calls add none.
pub record IsManaged (R : Runtime) (started : R.World → List Reconciler) : Type 0 where
  pub completed :
      (m : R.Manager) (b : Builder) (w : R.World)
      → Post
          (λ u w'. started w' ≡ started w ++ (b.reconciler ∷ []))
          (λ e w'. Unit {0})
          (R.complete m b w)
  pub logging : (z : R.ZapOptions) (w : R.World) → started (R.set_logger z w) ≡ started w
  pub managing :
      (o : ManagerOptions) (l : List Reconciler)
      → Moves (λ w. started w ≡ l) (λ w. started w ≡ l) (R.new_manager o)
  pub healthz :
      (m : R.Manager) (name : Text) (l : List Reconciler)
      → Moves (λ w. started w ≡ l) (λ w. started w ≡ l) (R.add_healthz_check m name)
  pub readyz :
      (m : R.Manager) (name : Text) (l : List Reconciler)
      → Moves (λ w. started w ≡ l) (λ w. started w ≡ l) (R.add_readyz_check m name)
  pub starting :
      (m : R.Manager) (l : List Reconciler)
      → Moves (λ w. started w ≡ l) (λ w. started w ≡ l) (R.start m)

-- The controllers of a mode: every mode but `manager` is the operator's.
abbrev pub controllers_of : Text → List Reconciler
controllers_of mode =
    if text_eq mode (text "manager")
    then git_change_operator_reconciler ∷ []
    else git_commit_reconciler ∷ pull_request_reconciler ∷ []

module _ (R : Runtime) (started : R.World → List Reconciler) (F : IsManaged R started) where
  abbrev Starts : {A : Type 0} → List Reconciler → Result A × R.World → Type 0
  Starts l p = Post (λ a w'. started w' ≡ l) (λ e w'. Unit {0}) p

  setup-Starts :
      (m : R.Manager) (mode : Text) (w : R.World)
      → Starts (started w ++ controllers_of mode) (setup R m mode w)
  unfolding setup
  setup-Starts m mode w = elim (Bool-cases (text_eq mode (text "manager"))) [
    | inl y ↦ rw y (F.completed m operator_builder w)
    | inr n ↦ rw n (
        Post-bind (R.complete m commit_builder) _ w _ _ _ (F.completed m commit_builder w)
          (λ u w' h.
            Post-map (R.complete m pull_builder w') _ _ _
              (λ u' w'' h'.
                h'
                ∙ (ap (λ l. l ++ (pull_request_reconciler ∷ [])) h
                    ∙ append_assoc (started w) (git_commit_reconciler ∷ [])
                        (pull_request_reconciler ∷ [])))
              (F.completed m pull_builder w')))
  ]

  run-Starts : (v : Vars R) (w : R.World) → Starts (started w ++ controllers_of v.mode) (run R v w)
  unfolding run
  run-Starts v w =
      Post-bind (R.new_manager _) _ w _ _ _
        (kept (R.new_manager _) w (F.managing _ (started w)) refl)
        (λ m w' h. Post-bind (setup R m v.mode) _ w' _ _ _ (setup-Starts m v.mode w') (λ u w'' h'.
          kept _ w''
            (Keeps-bind _ _ (F.healthz m _ _)
              (λ u. Keeps-bind _ _ (F.readyz m _ _) (λ u. F.starting m _)))
            (h' ∙ ap (λ l. l ++ controllers_of v.mode) h)))

  finished :
      (l : List Reconciler) (r : Result {0} Unit) (w : R.World)
      → Starts l (r, w)
      → ending R r ≡ returned
      → started w ≡ l
  finished l (ok u) w h e = h
  finished l (err x) w h e = absurd (different e)
    where
      different : exited 1 ≢ returned
      different h = cc

  with_namespace-mode : (v : Vars R) → (with_namespace R v).mode ≡ v.mode
  unfolding with_namespace
  with_namespace-mode v = elim (Bool-cases (is_nil v.watch_namespace)) [
    | inl y ↦ rw y refl
    | inr n ↦ rw n refl
  ]

  -- A process whose manager runs to a regular end has started exactly the controllers of its mode, in
  -- order and each once: that of the GitChangeOperator in the mode `manager`, and those of the GitCommit
  -- and of the PullRequest in every other mode, whatever its other flags are.
  pub main-starts :
      (args : List Text) (v : Vars R) (w : R.World)
      → parse_flags (flags R) args (defaults R) ≡ parsed v
      → (main R args w).0 ≡ returned
      → started (main R args w).1 ≡ started w ++ controllers_of v.mode
  unfolding main launch
  main-starts args v w e = rw e (λ h.
      finished _ _ _ (run-Starts (with_namespace R v) (R.set_logger (with_namespace R v).opts w)) h
      ∙ (ap (λ l. l ++ controllers_of (with_namespace R v).mode) (F.logging _ w)
          ∙ ap (λ m. started w ++ controllers_of m) (with_namespace-mode v)))
