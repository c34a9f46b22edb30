-- ===== src/Lib.antt =====
-- The git-change-operator, a Kubernetes operator that commits files to Git repositories and opens pull
-- requests on GitHub: a model of its controllers and of the packages that they call.
--
-- A reconcile (`Reconcile` of controllers/gitcommit_controller.go) reads a GitCommit, deletes it once
-- its time to live has passed, and otherwise asks the REST APIs of its spec, writes the files and the
-- referenced resources to a clone of the repository, encrypts them if asked to, commits, pushes, and
-- reports in the status. A GitCommit with a cron schedule takes a path of its own, which keeps a
-- history of its executions. The PullRequest controller (controllers/pullrequest_controller.go) works
-- alike, on a branch of its own, and ends in a request to GitHub. The GitChangeOperator controller
-- (controllers/gitchangeoperator_controller.go) installs the operator's own resources in the cluster:
-- among them the deployment that runs the same program (main.go) in the mode of the other two.
--
-- Files and code:
--   Api/*                  api/v1/gitcommit_types.go, api/v1/pullrequest_types.go,
--                          api/v1/gitchangeoperator_types.go; Api/CelValue: the values of
--                          pkg/cel/evaluator.go
--   Encryption             pkg/encryption/age.go
--   Decryption             pkg/encryption/decrypt.go
--   Cel                    pkg/cel/evaluator.go (`EvaluateCondition`, `EvaluateDataExpression`,
--                          `EvaluateOutputFormat`, `ProcessResponse`, `convertCELValue`)
--   Metrics                controllers/metrics.go
--   Main                   main.go and the three `SetupWithManager`; Main/Deployed: the process that
--                          Operator/Objects deploys; Base/Flags: Go's flag package
--   Commit/Secrets         `getAuthFromSecret`, `getTokenFromSecret`, `resolveRecipients`,
--                          `encryptFileContent` of controllers/gitcommit_controller.go, as all of Commit
--   RestCall               `checkSingleRestAPICondition` and `processJSONResponse` of both
--                          controllers, but for the circuit breaker, and the loop over all APIs
--   Commit/RestCheck       `checkRestAPIConditions`, with the circuit breaker
--   Commit/Content         `buildFileContent`
--   Commit/Resources       `fetchResource`, `processResourceRef`
--   Commit/Writing         `performGitCommit`
--   Commit/Status          `updateStatus`, `recordExecution`, `updateScheduleStatus`,
--                          `updateNextScheduledTime`; Status/Patches: what each changes
--   Commit/Ttl             `checkTTLExpired`
--   Commit/Schedule        `handleScheduledGitCommit`
--   Commit/Reconcile       `Reconcile`; Commit/Outcome: what it returns
--   Commit/Lifetime        many reconciles of one GitCommit, as steps between those of everything else;
--                          Pull/Lifetime alike
--   Pull/Secrets           `getAuthFromSecret` of controllers/pullrequest_controller.go, as all of Pull
--   Pull/RestCheck         `checkRestAPIConditions`
--   Pull/Resources         `fetchResource`, `processResourceRef`
--   Pull/Repository        `parseRepository`
--   Pull/Writing           `createPullRequest`
--   Pull/Status            `updateStatus`, `recordPRExecution`, `updateScheduleStatus`,
--                          `updateNextScheduledTime`
--   Pull/Schedule          `handleScheduledPullRequest`
--   Pull/Reconcile         `Reconcile`, `checkTTLExpired`
--   Operator/Objects       what `reconcileDeployment`, `reconcileServiceAccount`, `reconcileRole` and
--                          `reconcileRoleBinding` of controllers/gitchangeoperator_controller.go want
--   Operator/Exposure      what `reconcileMetricsService`, `reconcileServiceMonitor` and
--                          `reconcileIngress` want
--   Operator/Reconcile     `Reconcile`, `handleDeletion`, and the functions above with their deletions
--   Operator/Cluster       the API of Kubernetes that this controller calls, as a record of operations
--   Platform               what the code calls and does not implement, as a record of operations
--   Base, Effects          texts, lists, integers, paths; calls that may fail, and rules about them
--   Tests                  a platform in memory, and the theorems at concrete data
-- A folder of a component's name holds its proofs.
--
-- State: a call takes the world of the platform and, where the code has a pointer to an object, that
-- object beside it, and returns a result or an error with both as it leaves them. Go strings and byte
-- slices are lists of bytes, times count nanoseconds from the zero time, an `int64` is its bit pattern
-- with its wrap-around written out, a `float64` is a number of the platform, and a map is the list of
-- its entries in the order in which the loop meets them. A panic is an error of its own kind, which
-- the handlers pass on. What the two controllers have word for word in common (`buildFileContent`,
-- `encryptFileContent`, `resolveRecipients`, `getTokenFromSecret`, the expiry test) is one definition.
--
-- Bounds: the retry loops run on a number of attempts left, which starts at the 3 of the code, and are
-- through after as many conflicts as that allows (Commit/Status/Retries, Pull/Status/Retries). All other
-- loops go over a list.
--
-- Not modelled: the registration of schemes in `init` of main.go and api/v1/groupversion_info.go, logging,
-- and generated code (api/v1/zz_generated.deepcopy.go). Kubernetes, Git, GitHub, HTTP, Prometheus, age,
-- YAML, JSON, CEL, cron and controller-runtime are parameters, of which the theorems use only the
-- hypotheses that they name.
pub mod Base
pub mod Effects
pub mod Api
pub mod Platform
pub mod Encryption
pub mod Decryption
pub mod Cel
pub mod Metrics
pub mod RestCall
pub mod Commit
pub mod Pull
pub mod Operator
pub mod Main
pub mod Tests
