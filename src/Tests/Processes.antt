-- ===== src/Tests/Processes.antt =====
-- A manager in memory, and the theorems about `main` at concrete data.
use git_change_operator.Base.{◌≡◌, ◌≢◌, refl, Text, text, text_eq, cut, true, List, [], ◌∷◌, ◌++◌}
use git_change_operator.Base.Flags.{parse_flags, parsed, parse_bool, find_flag}
use git_change_operator.Effects.{ok}
use git_change_operator.Operator.Objects.{operator_args}
use git_change_operator.Main.{
  Reconciler, git_change_operator_reconciler, Runtime, returned, flags, defaults, manager_options,
  run, ending, main, with_namespace,
}
use git_change_operator.Main.Laws.{IsManaged, main-starts}
use git_change_operator.Main.Deployed.{watching, main-operator_args}
use git_change_operator.Tests.ClusterWitnesses.{gco}

-- The world is the list of the controllers that were built.
abbrev machine : Runtime
machine = record {
  World = List Reconciler;
  getenv = λ name. text "system";
  ZapOptions = Unit;
  development = tt;
  zap_flags = [];
  set_logger = λ z w. w;
  Manager = Unit;
  new_manager = λ o w. (ok tt, w);
  complete = λ m b w. (ok tt, w ++ (b.reconciler ∷ []));
  add_healthz_check = λ m name w. (ok tt, w);
  add_readyz_check = λ m name w. (ok tt, w);
  start = λ m w. (ok tt, w);
}

machine-IsManaged : IsManaged machine (λ w. w)
machine-IsManaged = record {
  completed = λ m b w. refl;
  logging = λ z w. refl;
  managing = λ o l. record { at = λ w h. h };
  healthz = λ m name l. record { at = λ w h. h };
  readyz = λ m name l. record { at = λ w h. h };
  starting = λ m l. record { at = λ w h. h };
}

abbrev arguments : List Text
arguments = text "-mode" ∷ text "manager" ∷ text "--leader-elect" ∷ []

arguments-parsed :
    parse_flags (flags machine) arguments (defaults machine)
    ≡ parsed (record (defaults machine) { mode = text "manager"; enable_leader_election = true })
unfolding parse_flags flags text text_eq cut find_flag parse_bool
arguments-parsed = refl

arguments-returned : (main machine arguments []).0 ≡ returned
unfolding main run manager_options parse_flags flags text text_eq cut find_flag parse_bool
    with_namespace
arguments-returned = refl

main-starts_example : (main machine arguments []).1 ≡ git_change_operator_reconciler ∷ []
unfolding text text_eq
main-starts_example =
    main-starts machine (λ w. w) machine-IsManaged arguments
      (record (defaults machine) { mode = text "manager"; enable_leader_election = true }) []
      arguments-parsed arguments-returned

system-ne : gco.namespace ≢ []
unfolding text
system-ne h = cc

main-operator_args_example :
    (main machine (operator_args gco) [] ≡ (
      ending machine (run machine (watching machine gco) []).0,
      (run machine (watching machine gco) []).1,
    ))
    × (manager_options machine (watching machine gco) ≡ record {
      metrics_bind_address = text ":8080";
      health_probe_bind_address = text ":8081";
      leader_election = true;
      leader_election_id = text "gco-operator";
      default_namespaces = text "system" ∷ [];
    })
main-operator_args_example = main-operator_args machine gco [] system-ne refl
