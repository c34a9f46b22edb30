-- ===== src/Main.antt =====
-- main.go, and the `SetupWithManager` functions of the three controllers.
pub mod Laws
pub mod Deployed
use mathlib.Core.Option
use git_change_operator.Base.{
  ℕ, Text, text, Bool, true, false, Option, none, some, List, [], ◌∷◌, ◌++◌, map,
}
use git_change_operator.Base.{if◌then◌else◌, is_nil, text_eq}
use git_change_operator.Base.Flags.{Flag, Parsed, parsed, help, failure, parse_bool, parse_flags}
use git_change_operator.Effects.{Result, ok, err, Exec, ◌>>=◌, ◌>>◌}

-- `ctrl.Options`, but for the scheme. The cache is kept to the namespaces, or to none if there are none.
pub record ManagerOptions : Type 0 where
  pub metrics_bind_address : Text
  pub health_probe_bind_address : Text
  pub leader_election : Bool
  pub leader_election_id : Text
  pub default_namespaces : List Text

pub data Reconciler : Type 0 where
  git_change_operator_reconciler git_commit_reconciler pull_request_reconciler : Reconciler

-- A controller that is built: `For` and `Owns` name kinds of objects.
pub record Builder : Type 0 where
  pub reconciler : Reconciler
  pub for : Text
  pub owns : List Text

-- What `main` calls and does not implement: the environment, zap's options with the flags that
-- `BindFlags` registers (their names are not those of `main`), and the manager of controller-runtime.
-- A configuration that `GetConfigOrDie` does not find is a failure of `new_manager`, and ends the process
-- alike.
pub record Runtime : Type 1 where
  pub World : Type 0
  pub getenv : Text → Text
  pub ZapOptions : Type 0
  -- `zap.Options{Development: true}`
  pub development : ZapOptions
  pub zap_flags : List (Flag ZapOptions)
  pub set_logger : ZapOptions → World → World
  pub Manager : Type 0
  pub new_manager : ManagerOptions → Exec World Manager
  -- `ctrl.NewControllerManagedBy(mgr)`, up to `Complete`.
  pub complete : Manager → Builder → Exec World Unit
  pub add_healthz_check : Manager → Text → Exec World Unit
  pub add_readyz_check : Manager → Text → Exec World Unit
  pub start : Manager → Exec World Unit

-- How the process ends.
pub data Ending : Type 0 where
  returned : Ending
  exited : ℕ → Ending

-- `SetupWithManager` of each.
abbrev pub operator_builder : Builder
operator_builder = record {
  reconciler = git_change_operator_reconciler;
  for = text "GitChangeOperator";
  owns = text "ServiceAccount" ∷ text "Service" ∷ [];
}

abbrev pub commit_builder : Builder
commit_builder = record { reconciler = git_commit_reconciler; for = text "GitCommit"; owns = [] }

abbrev pub pull_builder : Builder
pull_builder = record { reconciler = pull_request_reconciler; for = text "PullRequest"; owns = [] }

module _ (R : Runtime) where
  open R use {World, getenv, ZapOptions, development, zap_flags, set_logger, Manager, new_manager}
  open R use {complete, add_healthz_check, add_readyz_check, start}

  -- The variables that the flags set.
  pub record Vars : Type 0 where
    pub metrics_addr : Text
    pub probe_addr : Text
    pub enable_leader_election : Bool
    pub watch_namespace : Text
    pub mode : Text
    pub opts : ZapOptions

  abbrev pub defaults : Vars
  defaults = record {
    metrics_addr = text ":8080";
    probe_addr = text ":8081";
    enable_leader_election = false;
    watch_namespace = [];
    mode = text "operator";
    opts = development;
  }

  zap_flag : Flag ZapOptions → Flag Vars
  zap_flag f = record {
    name = f.name;
    is_bool = f.is_bool;
    set = λ s v. Option.map (λ z. record v { opts = z }) (f.set s v.opts);
  }

  -- The flags of `main`, then zap's.
  unfoldable pub flags : List (Flag Vars)
  unfolding zap_flag
  flags =
      record {
        name = text "metrics-bind-address";
        is_bool = false;
        set = λ s v. some (record v { metrics_addr = s });
      }
      ∷ record {
        name = text "health-probe-bind-address";
        is_bool = false;
        set = λ s v. some (record v { probe_addr = s });
      }
      ∷ record {
        name = text "leader-elect";
        is_bool = true;
        set = λ s v. Option.map (λ b. record v { enable_leader_election = b }) (parse_bool s);
      }
      ∷ record {
        name = text "watch-namespace";
        is_bool = false;
        set = λ s v. some (record v { watch_namespace = s });
      }
      ∷ record { name = text "mode"; is_bool = false; set = λ s v. some (record v { mode = s }) }
      ∷ map zap_flag zap_flags

  -- The pod's own namespace, where none is given.
  unfoldable pub with_namespace : Vars → Vars
  with_namespace v =
      if is_nil v.watch_namespace
      then record v { watch_namespace = getenv (text "POD_NAMESPACE") }
      else v

  unfoldable pub manager_options : Vars → ManagerOptions
  manager_options v = record {
    metrics_bind_address = v.metrics_addr;
    health_probe_bind_address = v.probe_addr;
    leader_election = v.enable_leader_election;
    leader_election_id = text "gco-" ++ v.mode;
    default_namespaces = if is_nil v.watch_namespace then [] else v.watch_namespace ∷ [];
  }

  -- The controllers of the mode.
  pub setup : Manager → Text → Exec World Unit
  setup mgr mode =
      if text_eq mode (text "manager")
      then complete mgr operator_builder
      else (do complete mgr commit_builder; complete mgr pull_builder)

  -- From the manager on: every error ends the process with 1.
  unfoldable pub run : Vars → Exec World Unit
  unfolding setup manager_options
  run v = do
    mgr ← new_manager (manager_options v)
    setup mgr v.mode
    add_healthz_check mgr (text "healthz")
    add_readyz_check mgr (text "readyz")
    start mgr

  abbrev pub ending : Result {0} Unit → Ending
  ending (ok u) = returned
  ending (err e) = exited 1

  -- What the result of the flags asks for.
  pub launch : Parsed Vars → World → Ending × World
  launch help w = (exited 0, w)
  launch (failure m) w = (exited 2, w)
  launch (parsed v) w =
      let v' = with_namespace v in let (r, w') = run v' (set_logger v'.opts w) in (ending r, w')

  unfoldable pub main : List Text → World → Ending × World
  unfolding launch
  main args w = launch (parse_flags flags args defaults) w
