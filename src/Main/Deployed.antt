-- ===== src/Main/Deployed.antt =====
-- The process that the GitChangeOperator controller deploys.
use git_change_operator.Base.{
  ◌≡◌, ◌≢◌, refl, text, Bool, true, false, [], ◌∷◌, is_nil-ne, text_eq, cut,
}
use git_change_operator.Base.Flags.{parsed, parse_bool, parse_flags, find_flag}
use git_change_operator.Api.Operator.{GitChangeOperator}
use git_change_operator.Operator.Objects.{or_default, operator_args}
use git_change_operator.Main.{
  Runtime, Vars, defaults, flags, with_namespace, manager_options, run, ending, launch, main,
}

module _ (R : Runtime) where
  -- The variables that the spec asks for.
  abbrev pub deployed : GitChangeOperator → Vars R
  deployed o = record {
    metrics_addr = or_default o.spec.operator.metrics_addr (text ":8080");
    probe_addr = or_default o.spec.operator.probe_addr (text ":8081");
    enable_leader_election = o.spec.operator.leader_elect;
    watch_namespace = [];
    mode = text "operator";
    opts = R.development;
  }

  parse_flags-operator_args :
      (o : GitChangeOperator)
      → parse_flags (flags R) (operator_args o) (defaults R) ≡ parsed (deployed o)
  unfolding operator_args parse_flags flags text text_eq cut parse_bool find_flag
  parse_flags-operator_args o = go o.spec.operator.leader_elect refl
    where
      go :
          (b : Bool)
          → o.spec.operator.leader_elect ≡ b
          → parse_flags (flags R) (operator_args o) (defaults R) ≡ parsed (deployed o)
      go true e = rw e refl
      go false e = rw e refl

  -- The variables behind the default of the namespace.
  abbrev pub watching : GitChangeOperator → Vars R
  watching o = record (deployed o) { watch_namespace = o.namespace }

  manager_options-watching :
      (o : GitChangeOperator)
      → o.namespace ≢ []
      → manager_options R (watching o) ≡ record {
        metrics_bind_address = or_default o.spec.operator.metrics_addr (text ":8080");
        health_probe_bind_address = or_default o.spec.operator.probe_addr (text ":8081");
        leader_election = o.spec.operator.leader_elect;
        leader_election_id = text "gco-operator";
        default_namespaces = o.namespace ∷ [];
      }
  unfolding manager_options text
  manager_options-watching o full = rw (is_nil-ne o.namespace full) refl

  -- Take a GitChangeOperator in a namespace, and the process with the arguments that its deployment gives
  -- to the container, whose POD_NAMESPACE is that namespace. `main` reads the arguments without an error,
  -- so that it runs with the addresses and the leader election of the spec, and the manager that it asks
  -- for has these, the lock of the mode `operator`, and a cache of that namespace alone.
  pub main-operator_args :
      (o : GitChangeOperator) (w : R.World)
      → o.namespace ≢ []
      → R.getenv (text "POD_NAMESPACE") ≡ o.namespace
      → (main R (operator_args o) w ≡ (
        ending R (run R (watching o) (R.set_logger R.development w)).0,
        (run R (watching o) (R.set_logger R.development w)).1,
      ))
        × (manager_options R (watching o) ≡ record {
          metrics_bind_address = or_default o.spec.operator.metrics_addr (text ":8080");
          health_probe_bind_address = or_default o.spec.operator.probe_addr (text ":8081");
          leader_election = o.spec.operator.leader_elect;
          leader_election_id = text "gco-operator";
          default_namespaces = o.namespace ∷ [];
        })
  unfolding main launch with_namespace
  main-operator_args o w full env =
      (rw (parse_flags-operator_args o, env) refl, manager_options-watching o full)
